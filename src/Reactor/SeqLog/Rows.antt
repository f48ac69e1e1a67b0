-- ===== src/Reactor/SeqLog/Rows.antt =====
-- One chain of the table (reactor/lib/checkpoint.c).
use arthas.Prelude.{
  ℤ, ◌≡◌, some, [], ◌∷◌, eq_ℤ, eq_ℤ_iff, if◌then◌else◌, arith, Option-cases, inl, inr,
}
use mathlib.Core.Option
use arthas.Reactor.Types.{SingleData, Row}
use arthas.Reactor.SeqLog.{find, change, insert_row}

pub find-change :
    (k j : ℤ) (f : SingleData → SingleData) (row : Row)
    → find j (change k f row) ≡ (if eq_ℤ k j then Option.map f (find j row) else find j row)
unfolding find change
find-change k j f [] = ground arith
find-change k j f (n ∷ row) = ground (
  arith,
  find-change k j f row,
  eq_ℤ_iff n.sequence_number k,
  eq_ℤ_iff n.sequence_number j,
  eq_ℤ_iff k j,
)

pub find-insert_row :
    (k j : ℤ) (d : SingleData) (row : Row)
    → find j (insert_row k d row) ≡ (if eq_ℤ k j then some d else find j row)
unfolding insert_row
find-insert_row k j d row = elim (Option-cases (find k row)) [
  | inl e ↦ rw (e, insert_row) (ground (arith))
  | inr (a, e) ↦ rw (e, insert_row) (rw find-change (ground (arith, eq_ℤ_iff k j)))
]
