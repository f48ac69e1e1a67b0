-- ===== src/Reactor/SeqLog/Highest.antt =====
-- The walk of `find_highest_seq_num` (reactor/lib/checkpoint.c).
use arthas.Prelude.{
  ℕ, ◌≡◌, refl, ℤ, pos, negsuc, ◌≤ℤ◌, ltb_ℤ, ◌⊎◌, inl, inr, none, some, [], ◌∷◌, All, arith, eq_ℤ,
  eq_ℤ_iff, if◌then◌else◌, ◌∙◌, Bool-cases, Option-cases, subst, sym,
}
use arthas.Reactor.Types.{SingleData, SeqNode, Row, SeqLog}
use arthas.Reactor.SeqLog.{find, highest, find_highest_seq_num}
use arthas.Reactor.SeqLog.Table.{IsSized, view}
use arthas.Reactor.SeqLog.Placed.{IsPlaced, seqs}
use arthas.Reactor.SeqLog.Walk.{nodes-IsWalk}

All-find :
    (P : ℤ → Type 0) (k : ℤ) (row : Row) {d : SingleData}
    → All P (seqs row)
    → find k row ≡ some d
    → P k
unfolding find
All-find P k [] a h = cc
All-find P k (n ∷ row) a h = elim (Bool-cases (eq_ℤ n.sequence_number k)) [
  | inl e ↦ subst P ((eq_ℤ_iff n.sequence_number k).0 e) a.0
  | inr e ↦ All-find P k row a.1 (rw (e, find) at h)
]

abbrev max_of : ℤ → ℤ → ℤ
max_of b k = if ltb_ℤ b k then k else b

max_of-ge : (b k : ℤ) → (b ≤ℤ max_of b k) × (k ≤ℤ max_of b k)
max_of-ge b k = ground arith

highest-ge : (b : ℤ) (row : Row) → (b ≤ℤ highest b row) × All (λ k. k ≤ℤ highest b row) (seqs row)
unfolding highest
highest-ge b [] = (omega arith, tt)
highest-ge b (t ∷ row) =
    let (top, rest) = highest-ge (max_of b t.sequence_number) row in
    let (left, right) = max_of-ge b t.sequence_number in
    (omega (arith, top, left), (omega (arith, top, right), rest))

abbrev Found : ℤ → Row → Type 0
Found k row = (d : SingleData) × (find k row ≡ some d)

Found-head : (k : ℤ) (t : SeqNode) (row : Row) → t.sequence_number ≡ k → Found k (t ∷ row)
unfolding find
Found-head k t row e = (t.ordered_data, ground (arith, eq_ℤ_iff t.sequence_number k))

Found-tail : (k : ℤ) (t : SeqNode) (row : Row) → Found k row → Found k (t ∷ row)
unfolding find
Found-tail k t row (d, e) = elim (Bool-cases (eq_ℤ t.sequence_number k)) [
  | inl same ↦ (t.ordered_data, rw same)
  | inr differ ↦ (d, rw differ e)
]

max_of-cases : (b k : ℤ) → (max_of b k ≡ b) ⊎ (k ≡ max_of b k)
max_of-cases b k = ground arith

highest-Found : (b : ℤ) (row : Row) → (highest b row ≡ b) ⊎ Found (highest b row) row
unfolding highest
highest-Found b [] = inl refl
highest-Found b (t ∷ row) =
    let top = highest (max_of b t.sequence_number) row in
    elim (highest-Found (max_of b t.sequence_number) row) [
      | inl e ↦ elim (max_of-cases b t.sequence_number) [
        | inl old ↦ inl (e ∙ old)
        | inr new ↦ inr (Found-head top t row (new ∙ sym e))
      ]
      | inr f ↦ inr (Found-tail top t row f)
    ]

-- The highest sequence number of the table: a bound on every key, and a key itself unless the
-- table is empty, where it is -1.
pub record IsHighest (s : SeqLog) (h : ℤ) : Type 0 where
  pub bound : (k : ℕ) (d : SingleData) → view s k ≡ some d → pos k ≤ℤ h
  pub attained :
      ((h ≡ negsuc 0) × ((k : ℕ) → view s k ≡ none))
      ⊎ ((k : ℕ) × (d : SingleData) × (h ≡ pos k) × (view s k ≡ some d))

-- On a table in shape (`IsSized`), where every node stands in the bucket of its key and no key
-- occurs twice, `find_highest_seq_num` returns the highest key of the table, and -1 if the table is
-- empty.
pub find_highest_seq_num-IsHighest :
    (s : SeqLog)
    → IsSized s
    → IsPlaced s
    → (h : ℤ) × (find_highest_seq_num s ≡ some h) × IsHighest s h
unfolding find_highest_seq_num
find_highest_seq_num-IsHighest s sized placed =
    let (ns, walked, w) = nodes-IsWalk s sized placed in
    let h = highest (negsuc 0) ns in
    let (above, ge) = highest-ge (negsuc 0) ns in
    let bound : (k : ℕ) (d : SingleData) → view s k ≡ some d → pos k ≤ℤ h =
      λ k d e. All-find (λ t. t ≤ℤ h) (pos k) ns ge (w.found k ∙ e) in
    (
      h,
      rw walked,
      record {
        bound = bound;
        attained = elim (highest-Found (negsuc 0) ns) [
          | inl e ↦ inl (
            e,
            λ k. elim (Option-cases (view s k)) [
              | inl empty ↦ empty
              | inr (d, full) ↦ absurd (low k (subst (λ t. pos k ≤ℤ t) e (bound k d full)))
            ],
          )
          | inr (d, e) ↦
              let (k, same) = All-find (λ t. (a : ℕ) × (t ≡ pos a)) h ns w.counted e in
              inr (k, d, same, sym (w.found k) ∙ subst (λ t. find t ns ≡ some d) same e)
        ];
      },
    )
  where
    low : (k : ℕ) → ¬ (pos k ≤ℤ negsuc 0)
    low k = omega arith
