-- ===== src/Reactor/Addresses/Direct.antt =====
-- The loops of `sort_by_sequence_number` (reactor/lib/rollback.c), as a change of each version.
use arthas.Prelude.{◌≡◌, refl, ℕ, ℤ, Option, none, some, List, [], ◌∷◌, to_int-pos, ◌∙◌}
use mathlib.Core.Option
use arthas.Reactor.Types.{SingleData, Row, SeqLog}
use arthas.Reactor.SeqLog.{find}
use arthas.Reactor.SeqLog.Table.{IsSized, view}
use arthas.Reactor.SeqLog.Placed.{IsPlaced, seqs}
use arthas.Reactor.Reexecute.{change_all}
use arthas.Reactor.Reexecute.Redo.{
  find-change_all, seqs-change_all, with_all, with_all-IsSized, change_slots-with_all,
  view-with_all, with_all-IsPlaced,
}
use arthas.Reactor.Addresses.{AddrOffset, place, sort_row, sort_by_sequence_number}

-- The version after all indices.
unfoldable pub placed_by : List AddrOffset → SingleData → SingleData
placed_by [] d = d
placed_by (a ∷ addrs) d = placed_by addrs (place a d)

map-map :
    (f g : SingleData → SingleData) (o : Option SingleData)
    → Option.map g (Option.map f o) ≡ Option.map (λ d. g (f d)) o
map-map f g none = refl
map-map f g (some d) = refl

map-id : (o : Option SingleData) → o ≡ Option.map (λ d. d) o
map-id none = refl
map-id (some d) = refl

find-sort_row :
    (addrs : List AddrOffset) (k : ℤ) (row : Row)
    → find k (sort_row addrs row) ≡ Option.map (placed_by addrs) (find k row)
unfolding sort_row placed_by
find-sort_row [] k row = map-id (find k row)
find-sort_row (a ∷ addrs) k row =
    rw (find-sort_row addrs k (change_all (place a) row), find-change_all (place a) k row)
      (map-map (place a) (placed_by addrs) (find k row))

seqs-sort_row : (addrs : List AddrOffset) (row : Row) → seqs (sort_row addrs row) ≡ seqs row
unfolding sort_row
seqs-sort_row [] row = refl
seqs-sort_row (a ∷ addrs) row =
    seqs-sort_row addrs (change_all (place a) row) ∙ seqs-change_all (place a) row

-- The table `s'` is `s` with its versions placed.
pub record IsSorted (addrs : List AddrOffset) (s s' : SeqLog) : Type 0 where
  pub sized : IsSized s'
  pub placed : IsPlaced s'
  pub reads : (k : ℕ) → view s' k ≡ Option.map (placed_by addrs) (view s k)

pub sort_by_sequence_number-IsSorted :
    (addrs : List AddrOffset) (s : SeqLog)
    → IsSized s
    → IsPlaced s
    → (s' : SeqLog) × (sort_by_sequence_number addrs s ≡ some s') × IsSorted addrs s s'
unfolding sort_by_sequence_number
sort_by_sequence_number-IsSorted addrs s sized placed =
    let f = placed_by addrs in
    let g = sort_row addrs in
    let finds = find-sort_row addrs in
    let keeps = seqs-sort_row addrs in
    (
      with_all f g finds keeps s sized,
      rw (to_int-pos s.size sized.fits_int) (rw (change_slots-with_all f g finds keeps s sized)),
      record {
        sized = with_all-IsSized f g finds keeps s sized;
        placed = with_all-IsPlaced f g finds keeps s sized placed;
        reads = view-with_all f g finds keeps s sized;
      },
    )
