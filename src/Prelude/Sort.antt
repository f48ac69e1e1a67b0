-- ===== src/Prelude/Sort.antt =====
-- `qsort` with a comparator, as insertion sort. Where values that compare equal are equal, a sorted
-- permutation is unique, so which algorithm sorts makes no difference.
use Prim.Native.Nat.{suc}
use mathlib.Core.Path.{◌≡◌, refl, ap, ◌∙◌}
use mathlib.Core.Bool.{true}
use mathlib.Core.List.{List, [], ◌∷◌, ◌++◌, reverse, reverse-append, Perm}
use mathlib.Core.List.Perm
use native.Mathlib.Omega.{arith}
use arthas.Prelude.Tests.{if◌then◌else◌, Bool-cases}
use arthas.Prelude.Lists.{All, All-append, length}
use arthas.Prelude.Int.{ℤ, pos, ltb_ℤ}
use mathlib.Core.Logic.{inl, inr}

pub All-reverse {ℓ κ} : {A : Type ℓ} (P : A → Type κ) (xs : List A) → All P xs → All P (reverse xs)
All-reverse P [] a = tt
All-reverse P (x ∷ xs) a =
    rw (reverse-append (x ∷ []) xs)
      (All-append P (reverse xs) (x ∷ []) (All-reverse P xs a.1) (a.0, tt))

module _ {ℓ} {A : Type ℓ} (cmp : A → A → ℤ) where
  unfoldable pub insert_sorted : A → List A → List A
  insert_sorted x [] = x ∷ []
  insert_sorted x (y ∷ ys) = if ltb_ℤ (pos 0) (cmp x y) then y ∷ insert_sorted x ys else x ∷ y ∷ ys

  unfoldable pub qsort : List A → List A
  unfolding insert_sorted
  qsort [] = []
  qsort (x ∷ xs) = insert_sorted x (qsort xs)

  insert_sorted-perm : (x : A) (ys : List A) → Perm (insert_sorted x ys) (x ∷ ys)
  unfolding insert_sorted
  insert_sorted-perm x [] = Perm.refl (x ∷ [])
  insert_sorted-perm x (y ∷ ys) = elim (Bool-cases (ltb_ℤ (pos 0) (cmp x y))) [
    | inl e ↦
        rw (e, insert_sorted)
          (Perm.trans (Perm.cons y (insert_sorted-perm x ys)) (Perm.swap x y ys))
    | inr e ↦ rw (e, insert_sorted) (Perm.refl (x ∷ y ∷ ys))
  ]

  pub qsort-perm : (xs : List A) → Perm (qsort xs) xs
  unfolding qsort
  qsort-perm [] = Perm.refl []
  qsort-perm (x ∷ xs) = Perm.trans (insert_sorted-perm x (qsort xs)) (Perm.cons x (qsort-perm xs))

  -- Each element goes behind all those that come after it.
  abbrev pub IsBackwards : List A → Type ℓ
  IsBackwards [] = Unit
  IsBackwards (x ∷ xs) = All (λ y. ltb_ℤ (pos 0) (cmp x y) ≡ true) xs × IsBackwards xs

  insert_sorted-last :
      (x : A) (ys : List A)
      → All (λ y. ltb_ℤ (pos 0) (cmp x y) ≡ true) ys
      → insert_sorted x ys ≡ ys ++ x ∷ []
  unfolding insert_sorted
  insert_sorted-last x [] a = refl
  insert_sorted-last x (y ∷ ys) a =
      rw (a.0, insert_sorted) (ap (λ t. y ∷ t) (insert_sorted-last x ys a.1))

  -- A list in the opposite order is turned round.
  pub qsort-reverse : (xs : List A) → IsBackwards xs → qsort xs ≡ reverse xs
  unfolding qsort
  qsort-reverse [] b = refl
  qsort-reverse (x ∷ xs) b =
      rw (qsort-reverse xs b.1, reverse-append (x ∷ []) xs)
        (insert_sorted-last x (reverse xs)
          (All-reverse (λ y. ltb_ℤ (pos 0) (cmp x y) ≡ true) xs b.0))

  All-insert_sorted :
      (P : A → Type ℓ) (x : A) (ys : List A) → P x → All P ys → All P (insert_sorted x ys)
  unfolding insert_sorted
  All-insert_sorted P x [] p a = (p, tt)
  All-insert_sorted P x (y ∷ ys) p a = elim (Bool-cases (ltb_ℤ (pos 0) (cmp x y))) [
    | inl e ↦ rw (e, insert_sorted) (a.0, All-insert_sorted P x ys p a.1)
    | inr e ↦ rw (e, insert_sorted) (p, a)
  ]

  pub All-qsort : (P : A → Type ℓ) (xs : List A) → All P xs → All P (qsort xs)
  unfolding qsort
  All-qsort P [] a = tt
  All-qsort P (x ∷ xs) a = All-insert_sorted P x (qsort xs) a.0 (All-qsort P xs a.1)

  length-insert_sorted : (x : A) (ys : List A) → length (insert_sorted x ys) ≡ suc (length ys)
  unfolding insert_sorted
  length-insert_sorted x [] = refl
  length-insert_sorted x (y ∷ ys) = ground (arith, length-insert_sorted x ys)

  pub length-qsort : (xs : List A) → length (qsort xs) ≡ length xs
  unfolding qsort
  length-qsort [] = refl
  length-qsort (x ∷ xs) = length-insert_sorted x (qsort xs) ∙ ap suc (length-qsort xs)
