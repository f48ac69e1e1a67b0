-- ===== src/Reactor/Decision.antt =====
-- The order of a reversion (`decision_func_sequence_array` of reactor/lib/rollback.c).
pub mod Order
pub mod Undo
use arthas.Prelude.{
  ℕ, zero, suc, ◌+◌, ◌-◌, ◌^◌, ◌≤◌, ◌<◌, ◌≡◌, refl, ℤ, pos, pos_part, neg_part, ◌≤ℤ◌, ltb_ℤ, Bool,
  true, false, ◌⊎◌, inl, inr, leb, Option, none, some, List, [], ◌∷◌, ◌++◌, take, drop, All, arith,
  to_int, to_int-pos, length, if◌then◌else◌, Bool-cases, ap, ◌∙◌,
}
use mathlib.Core.List.{Perm, reverse, append-nil}
use arthas.Prelude.Sort.{qsort, insert_sorted, qsort-perm, qsort-reverse, All-qsort, IsBackwards}

-- `b - a` in 32-bit arithmetic.
unfoldable pub reverse_cmpfunc : ℤ → ℤ → ℤ
unfolding to_int
reverse_cmpfunc a b = to_int (pos_part b + neg_part a + 2 ^ 33 - neg_part b - pos_part a)

-- Copies the array into `new_seq_numbers`, counts up `new_total`, and sorts the first `new_total`
-- entries. A write behind the end of `new_seq_numbers` is undefined.
unfoldable pub decision_func_sequence_array : List ℤ → List ℤ → ℕ → Option (List ℤ × ℕ)
unfolding reverse_cmpfunc qsort
decision_func_sequence_array old_seq_numbers new_seq_numbers new_total =
    let filled = old_seq_numbers ++ drop (length old_seq_numbers) new_seq_numbers in
    let total = new_total + length old_seq_numbers in
    if leb (length old_seq_numbers) (length new_seq_numbers)
    then (if leb total (length new_seq_numbers)
        then some (qsort reverse_cmpfunc (take total filled) ++ drop total filled, total)
        else none)
    else none

-- A sequence number as the checkpoint library hands them out.
abbrev pub IsSeq : ℤ → Type 0
IsSeq k = (a : ℕ) × (k ≡ pos a) × (a < 2 ^ 31)

abbrev pub IsDescending : List ℤ → Type 0
IsDescending [] = Unit
IsDescending (k ∷ ks) = All (λ j. j ≤ℤ k) ks × IsDescending ks

abbrev pub IsAscending : List ℤ → Type 0
IsAscending [] = Unit
IsAscending (k ∷ ks) = All (λ j. ltb_ℤ k j ≡ true) ks × IsAscending ks
