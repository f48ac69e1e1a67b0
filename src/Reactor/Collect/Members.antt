-- ===== src/Reactor/Collect/Members.antt =====
-- Membership in the arrays that the collection sorts (reactor/lib/core.cpp).
use arthas.Prelude.{
  ℕ, ◌≡◌, ◌≢◌, refl, ℤ, pos, false, ◌||◌, List, [], ◌∷◌, ◌++◌, All, arith, eq_ℤ, eq_ℤ_iff,
}
use mathlib.Core.List.{reverse, reverse-append}
use arthas.Prelude.Sort.{qsort, insert_sorted}
use arthas.Reactor.SeqLog.Scans.{mem}
use arthas.Reactor.Collect.{greater}

mem-insert_sorted :
    (v x : ℤ) (ys : List ℤ) → mem v (insert_sorted greater x ys) ≡ (eq_ℤ x v || mem v ys)
unfolding insert_sorted
mem-insert_sorted v x [] = refl
mem-insert_sorted v x (y ∷ ys) = ground (arith, mem-insert_sorted v x ys)

pub mem-qsort : (v : ℤ) (xs : List ℤ) → mem v (qsort greater xs) ≡ mem v xs
unfolding qsort
mem-qsort v [] = refl
mem-qsort v (x ∷ xs) = ground (arith, mem-insert_sorted v x (qsort greater xs), mem-qsort v xs)

pub mem-append : (v : ℤ) (xs ys : List ℤ) → mem v (xs ++ ys) ≡ (mem v xs || mem v ys)
mem-append v [] ys = refl
mem-append v (x ∷ xs) ys = ground (arith, mem-append v xs ys)

pub mem-reverse : (v : ℤ) (xs : List ℤ) → mem v (reverse xs) ≡ mem v xs
mem-reverse v [] = refl
mem-reverse v (x ∷ xs) =
    rw (reverse-append (x ∷ []) xs)
      (ground (arith, mem-append v (reverse xs) (x ∷ []), mem-reverse v xs))

-- A number that is not in the list differs from all in it.
pub not-mem : (a : ℕ) (ks : List ℤ) → mem (pos a) ks ≡ false → All (λ j. j ≢ pos a) ks
not-mem a [] e = tt
not-mem a (k ∷ ks) e = ((λ same. ground (arith, eq_ℤ_iff k (pos a))), not-mem a ks (ground arith))
