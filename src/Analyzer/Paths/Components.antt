-- ===== src/Analyzer/Paths/Components.antt =====
-- The components of a path, and where they lead to (analyzer/lib/Utils/Path.cpp).
use arthas.Prelude.{
  ℕ, zero, suc, ◌≡◌, refl, false, List, [], ◌∷◌, ◌++◌, All, replicate, arith, inl, inr,
  if◌then◌else◌, Bool-cases,
}
use arthas.Analyzer.Strings.{String}
use arthas.Analyzer.Paths.{is_slash, skip_slashes, take_component, is_dot, is_dot_dot}
use arthas.Analyzer.Paths.Strip.{HasNoSlash, IsComponent}
use arthas.Analyzer.Paths.Backward.{parent}

-- Components, each behind one slash and some more, and slashes behind the last.
unfoldable pub spaced : List (ℕ × String) → ℕ → String
spaced [] m = replicate m 47
spaced ((n, p) ∷ ps) m = 47 ∷ (replicate n 47 ++ (p ++ spaced ps m))

abbrev pub parts_of : List (ℕ × String) → List String
parts_of [] = []
parts_of ((n, p) ∷ ps) = p ∷ parts_of ps

-- The stack of directories, the last one first, after a component, and after all.
unfoldable pub enter : String → List String → List String
enter p st = if is_dot p then st else (if is_dot_dot p then parent st else p ∷ st)

unfoldable pub resolve : List String → List String → List String
resolve st [] = st
resolve st (p ∷ ps) = resolve (enter p st) ps

pub parent-All : (st : List String) → All IsComponent st → All IsComponent (parent st)
parent-All [] a = a
parent-All (c ∷ st) (is, a) = a

pub enter-All :
    (p : String) (st : List String)
    → IsComponent p
    → All IsComponent st
    → All IsComponent (enter p st)
unfolding enter
enter-All p st is a = elim (Bool-cases (is_dot p)) [
  | inl e ↦ rw e a
  | inr e ↦ elim (Bool-cases (is_dot_dot p)) [
    | inl f ↦ rw (e, f) (parent-All st a)
    | inr f ↦ rw (e, f) (is, a)
  ]
]

pub resolve-All :
    (ps st : List String)
    → All IsComponent ps
    → All IsComponent st
    → All IsComponent (resolve st ps)
unfolding resolve
resolve-All [] st a b = b
resolve-All (p ∷ ps) st (is, a) b = resolve-All ps (enter p st) a (enter-All p st is b)

skip_slashes-replicate : (n : ℕ) (s : String) → skip_slashes (replicate n 47 ++ s) ≡ skip_slashes s
unfolding skip_slashes
skip_slashes-replicate zero s = refl
skip_slashes-replicate (suc n) s = skip_slashes-replicate n s

pub skip_slashes-all : (m : ℕ) → skip_slashes (replicate m 47) ≡ []
unfolding skip_slashes
skip_slashes-all zero = refl
skip_slashes-all (suc m) = skip_slashes-all m

skip_slashes-component : (p s : String) → IsComponent p → skip_slashes (p ++ s) ≡ p ++ s
unfolding skip_slashes
skip_slashes-component [] s (a, ne) = absurd (ne refl)
skip_slashes-component (c ∷ p) s ((nc, a), ne) =
    let e : is_slash c ≡ false = ground (arith, nc) in rw e

take_component-spaced :
    (p : String) (ps : List (ℕ × String)) (m : ℕ)
    → HasNoSlash p
    → take_component (p ++ spaced ps m) ≡ (p, spaced ps m)
unfolding take_component spaced
take_component-spaced [] [] zero a = refl
take_component-spaced [] [] (suc m) a = refl
take_component-spaced [] ((n, q) ∷ ps) m a = refl
take_component-spaced (c ∷ p) ps m (nc, a) =
    let e : is_slash c ≡ false = ground (arith, nc) in rw (e, take_component-spaced p ps m a)

pub first-component :
    (n : ℕ) (p : String) (ps : List (ℕ × String)) (m : ℕ)
    → IsComponent p
    → take_component (skip_slashes (spaced ((n, p) ∷ ps) m)) ≡ (p, spaced ps m)
unfolding spaced skip_slashes
first-component n p ps m (a, ne) =
    rw (skip_slashes-replicate n (p ++ spaced ps m), skip_slashes-component p (spaced ps m) (a, ne))
      (take_component-spaced p ps m a)
