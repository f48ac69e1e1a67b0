-- ===== src/Examples/Paths.antt =====
-- The path "/a/..//b".
use arthas.Prelude.{ℕ, ◌≡◌, ◌↔◌, refl, Bool, true, pos, some, List, [], ◌∷◌, All, length, arith}
use mathlib.Core.List.{reverse}
use arthas.Analyzer.Strings.{String}
use arthas.Reactor.Platform.{returned}
use arthas.Analyzer.Paths.{canonpath, pathendswith, pathneq}
use arthas.Analyzer.Paths.Strip.{IsComponent}
use arthas.Analyzer.Paths.Backward.{canonical}
use arthas.Analyzer.Paths.Components.{spaced, parts_of, enter, resolve}
use arthas.Analyzer.Paths.Canonical.{canonpath-IsCanonical}
use arthas.Analyzer.Paths.Compare.{without, EndsWith, pathendswith-EndsWith, pathneq-IsEqual}

abbrev parts : List (ℕ × String)
parts = (0, 97 ∷ []) ∷ (0, 46 ∷ 46 ∷ []) ∷ (1, 98 ∷ []) ∷ []

parts-All : All IsComponent (parts_of parts)
parts-All = (
  (((λ e. omega (arith, e)), tt), (λ e. cc)),
  (
    (((λ e. omega (arith, e)), ((λ e. omega (arith, e)), tt)), (λ e. cc)),
    ((((λ e. omega (arith, e)), tt), (λ e. cc)), tt),
  ),
)

parts-length : length (spaced parts 0) ≡ 8
unfolding spaced
parts-length = refl

parts-stack : reverse (resolve [] (parts_of parts)) ≡ (98 ∷ []) ∷ []
unfolding resolve enter
parts-stack = refl

canonpath-IsCanonical_example :
    canonpath 4 (spaced parts 0)
    ≡ returned (some (canonical (reverse (resolve [] (parts_of parts)))))
canonpath-IsCanonical_example =
    canonpath-IsCanonical parts 0 4 parts-All (rw parts-length (omega arith)) (omega arith)
      (rw parts-length (omega arith))

pathendswith-EndsWith_example :
    (b : Bool) × (pathendswith 4 (spaced parts 0) (98 ∷ []) ≡ returned b)
    × (b ≡ true → EndsWith (canonical (reverse (resolve [] (parts_of parts)))) (98 ∷ []))
pathendswith-EndsWith_example =
    pathendswith-EndsWith parts 0 4 (98 ∷ []) parts-All (rw parts-length (omega arith))
      (omega arith) (rw parts-length (omega arith))

pathneq-IsEqual_example :
    (b : Bool) × (pathneq 4 (spaced parts 0) (98 ∷ []) (pos 1) ≡ returned b)
    × ((b ≡ true) ↔ (without (pos 1) (98 ∷ []) [] ≡ 98 ∷ []))
pathneq-IsEqual_example =
    pathneq-IsEqual parts 0 4 (98 ∷ []) (pos 1) (98 ∷ []) [] parts-All
      (rw parts-length (omega arith)) (omega arith) (rw parts-length (omega arith)) parts-stack
