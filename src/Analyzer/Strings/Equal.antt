-- ===== src/Analyzer/Strings/Equal.antt =====
-- `strcmp` as a test of equality.
use arthas.Prelude.{◌≡◌, refl, true, false, ◌==◌, [], ◌∷◌, Bool-cases, inl, inr, arith}
use arthas.Analyzer.Strings.{String, str_equal}

pub str_equal-eq : (s t : String) → str_equal s t ≡ true → s ≡ t
unfolding str_equal
str_equal-eq [] [] h = refl
str_equal-eq [] (d ∷ t) h = cc
str_equal-eq (c ∷ s) [] h = cc
str_equal-eq (c ∷ s) (d ∷ t) h = elim (Bool-cases (c == d)) [
  | inl e ↦ let same : c ≡ d = ground arith in let rest : s ≡ t = str_equal-eq s t (rw e at h) in cc
  | inr e ↦ let h' : false ≡ true = rw e at h in cc
]

pub str_equal_self : (s : String) → str_equal s s ≡ true
unfolding str_equal
str_equal_self [] = refl
str_equal_self (c ∷ s) = let e : c == c ≡ true = ground arith in rw e (str_equal_self s)
