-- ===== src/Analyzer/Strings.antt =====
-- Splitting a string (`splitList` of analyzer/lib/Utils/String.cpp). A string is the list of its
-- characters, as numbers.
pub mod Join
pub mod Total
pub mod Equal
use arthas.Prelude.{
  ℕ, zero, suc, ◌+◌, Bool, true, false, ◌&&◌, ◌==◌, Option, none, some, List, [], ◌∷◌, take, drop,
  length, if◌then◌else◌,
}
use mathlib.Core.Option
use arthas.Reactor.Platform.{Run, returned, unfinished, bind}

abbrev pub String : Type 0
String = List ℕ

unfoldable pub is_prefix : String → String → Bool
is_prefix [] s = true
is_prefix (c ∷ p) [] = false
is_prefix (c ∷ p) (d ∷ s) = c == d && is_prefix p s

-- `str.find(sep)`, none for `npos`.
unfoldable pub find_string : String → String → Option ℕ
unfolding is_prefix
find_string sep [] = if is_prefix sep [] then some 0 else none
find_string sep (c ∷ s) =
    let rest = find_string sep s in if is_prefix sep (c ∷ s) then some 0 else Option.map suc rest

-- The loop from `start` on, where `s` is the string behind it: the number of separators, and the
-- pieces.
unfoldable pub split_from : ℕ → String → String → Run (ℕ × List String)
split_from zero sep s = unfinished
split_from (suc fuel) sep s = elim (find_string sep s) [
  | none ↦ returned (0, s ∷ [])
  | some end ↦
      bind (split_from fuel sep (drop (end + length sep) s))
        λ (n, pieces). returned (n + 1, take end s ∷ pieces)
]

-- The separator as a C string.
unfoldable pub split_list : ℕ → String → String → Run (ℕ × List String)
unfolding split_from
split_list fuel [] sep = returned (0, [])
split_list fuel (c ∷ str) sep = split_from fuel sep (c ∷ str)

-- `strcmp(s, t) == 0`.
unfoldable pub str_equal : String → String → Bool
str_equal [] [] = true
str_equal [] (d ∷ t) = false
str_equal (c ∷ s) [] = false
str_equal (c ∷ s) (d ∷ t) = c == d && str_equal s t

unfoldable pub count_character : ℕ → String → ℕ
count_character c [] = 0
count_character c (d ∷ s) = let n = count_character c s in if d == c then suc n else n
