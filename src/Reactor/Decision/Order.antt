-- ===== src/Reactor/Decision/Order.antt =====
-- The array that `decision_func_sequence_array` (reactor/lib/rollback.c) writes.
use arthas.Prelude.{
  ℕ, ◌+◌, ◌^◌, ◌≤◌, ◌<◌, ◌≡◌, ℤ, pos, ◌≤ℤ◌, ltb_ℤ, true, false, inl, inr, some, List, [], ◌∷◌, ◌++◌,
  drop, All, arith, length, Bool-cases, ap, ◌∙◌, take-append_length, drop-append_length,
}
use mathlib.Core.List.{Perm, reverse}
use arthas.Prelude.Sort.{
  qsort, insert_sorted, qsort-perm, qsort-reverse, All-qsort, IsBackwards, length-qsort,
}
use arthas.Reactor.Decision.{
  reverse_cmpfunc, decision_func_sequence_array, IsSeq, IsDescending, IsAscending,
}

cmp-pos :
    (a b : ℕ)
    → a < 2 ^ 31
    → b < 2 ^ 31
    → ltb_ℤ (pos 0) (reverse_cmpfunc (pos a) (pos b)) ≡ ltb_ℤ (pos a) (pos b)
unfolding reverse_cmpfunc
cmp-pos a b ha hb = ground arith

abbrev pub sorted : List ℤ → List ℤ
sorted = qsort reverse_cmpfunc

pub decision_func-sorted :
    (old new : List ℤ)
    → length old ≤ length new
    → decision_func_sequence_array old new 0
      ≡ some (sorted old ++ drop (length old) new, length old)
unfolding decision_func_sequence_array
decision_func-sorted old new h =
    let e : 0 + length old ≡ length old = omega arith in
    rw (e, take-append_length, drop-append_length) (ground arith)

after-ge : (x y : ℤ) → IsSeq x → IsSeq y → ltb_ℤ (pos 0) (reverse_cmpfunc x y) ≡ true → x ≤ℤ y
after-ge x y (a, ea, ha) (b, eb, hb) h = ground (arith, cmp-pos a b ha hb)

before-ge : (x y : ℤ) → IsSeq x → IsSeq y → ltb_ℤ (pos 0) (reverse_cmpfunc x y) ≡ false → y ≤ℤ x
before-ge x y (a, ea, ha) (b, eb, hb) h = ground (arith, cmp-pos a b ha hb)

All-ge : (x y : ℤ) (ys : List ℤ) → y ≤ℤ x → All (λ j. j ≤ℤ y) ys → All (λ j. j ≤ℤ x) ys
All-ge x y [] h a = tt
All-ge x y (z ∷ ys) h a = (omega (arith, a.0), All-ge x y ys h a.1)

All-insert :
    (P : ℤ → Type 0) (x : ℤ) (ys : List ℤ)
    → P x
    → All P ys
    → All P (insert_sorted reverse_cmpfunc x ys)
unfolding insert_sorted
All-insert P x [] p a = (p, tt)
All-insert P x (y ∷ ys) p a = elim (Bool-cases (ltb_ℤ (pos 0) (reverse_cmpfunc x y))) [
  | inl e ↦ rw (e, insert_sorted) (a.0, All-insert P x ys p a.1)
  | inr e ↦ rw (e, insert_sorted) (p, a)
]

insert-IsDescending :
    (x : ℤ) (ys : List ℤ)
    → IsSeq x
    → All IsSeq ys
    → IsDescending ys
    → IsDescending (insert_sorted reverse_cmpfunc x ys)
unfolding insert_sorted
insert-IsDescending x [] s ss d = (tt, tt)
insert-IsDescending x (y ∷ ys) s ss d = elim (Bool-cases (ltb_ℤ (pos 0) (reverse_cmpfunc x y))) [
  | inl e ↦
      rw (e, insert_sorted)
        (
          All-insert (λ j. j ≤ℤ y) x ys (after-ge x y s ss.0 e) d.0,
          insert-IsDescending x ys s ss.1 d.1,
        )
  | inr e ↦ let ge = before-ge x y s ss.0 e in rw (e, insert_sorted) ((ge, All-ge x y ys ge d.0), d)
]

sorted-IsDescending : (ks : List ℤ) → All IsSeq ks → IsDescending (sorted ks)
unfolding qsort
sorted-IsDescending [] s = tt
sorted-IsDescending (k ∷ ks) s =
    insert-IsDescending k (sorted ks) s.0 (All-qsort reverse_cmpfunc IsSeq ks s.1)
      (sorted-IsDescending ks s.1)

-- For sequence numbers below 2^31 and an array with room for them, `decision_func_sequence_array`
-- writes a permutation of them, from the newest to the oldest, counts them all, and leaves the rest
-- of the array alone.
pub decision_func-IsDescending :
    (old new : List ℤ)
    → All IsSeq old
    → length old ≤ length new
    → (ks : List ℤ) × (decision_func_sequence_array old new 0
        ≡ some (ks ++ drop (length old) new, length ks))
      × Perm ks old
      × IsDescending ks
decision_func-IsDescending old new s h = (
  sorted old,
  rw length-qsort (decision_func-sorted old new h),
  qsort-perm reverse_cmpfunc old,
  sorted-IsDescending old s,
)

ascending-IsBackwards :
    (ks : List ℤ) → All IsSeq ks → IsAscending ks → IsBackwards reverse_cmpfunc ks
ascending-IsBackwards [] s a = tt
ascending-IsBackwards (k ∷ ks) s a = (go ks s.1 a.0, ascending-IsBackwards ks s.1 a.1)
  where
    go :
        (js : List ℤ)
        → All IsSeq js
        → All (λ j. ltb_ℤ k j ≡ true) js
        → All (λ j. ltb_ℤ (pos 0) (reverse_cmpfunc k j) ≡ true) js
    go [] t b = tt
    go (j ∷ js) (sj, t) b = (one s.0 sj, go js t b.1)
      where
        one : IsSeq k → IsSeq j → ltb_ℤ (pos 0) (reverse_cmpfunc k j) ≡ true
        one (a, ea, ha) (c, ec, hc) = ground (arith, cmp-pos a c ha hc, b.0)

-- Numbers that rise are reversed.
pub decision_func-reverse :
    (old new : List ℤ)
    → All IsSeq old
    → IsAscending old
    → length old ≤ length new
    → decision_func_sequence_array old new 0
      ≡ some (reverse old ++ drop (length old) new, length old)
decision_func-reverse old new s a h =
    decision_func-sorted old new h
    ∙ ap (λ t. some (t ++ drop (length old) new, length old))
        (qsort-reverse reverse_cmpfunc old (ascending-IsBackwards old s a))
