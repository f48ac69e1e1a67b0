-- ===== src/Analyzer/Strings/Join.antt =====
-- Splitting pieces that were joined (`splitList` of analyzer/lib/Utils/String.cpp).
use arthas.Prelude.{
  ℕ, zero, suc, ◌+◌, ◌≤◌, ◌<◌, ◌≡◌, ◌≢◌, refl, true, false, ==_iff, none, some, List, [], ◌∷◌, ◌++◌,
  All, arith, length, drop, ap, ◌∙◌, take-append_length, drop-append_length, length-append,
}
use mathlib.Core.List.{append_assoc}
use arthas.Reactor.Platform.{returned}
use arthas.Analyzer.Strings.{String, is_prefix, find_string, split_from, split_list}

-- The first piece and the others, with the separator between them.
unfoldable pub join : String → String → List String → String
join sep f [] = f
join sep f (g ∷ gs) = f ++ (sep ++ join sep g gs)

-- The pieces can be told apart: those before the last do not contain the first character of the
-- separator, and the last does not contain the separator.
abbrev pub IsSplittable : ℕ → String → String → List String → Type 0
IsSplittable h t f [] = find_string (h ∷ t) f ≡ none
IsSplittable h t f (g ∷ gs) = All (λ c. c ≢ h) f × IsSplittable h t g gs

is_prefix-append : (p s : String) → is_prefix p (p ++ s) ≡ true
unfolding is_prefix
is_prefix-append [] s = refl
is_prefix-append (c ∷ p) s = ground (arith, is_prefix-append p s, ==_iff c c)

is_prefix_other : (h c : ℕ) (t s : String) → c ≢ h → is_prefix (h ∷ t) (c ∷ s) ≡ false
unfolding is_prefix
is_prefix_other h c t s ne = ground arith

-- The first separator stands behind a piece without its first character.
find_string_piece :
    (h : ℕ) (t f rest : String)
    → All (λ c. c ≢ h) f
    → find_string (h ∷ t) (f ++ ((h ∷ t) ++ rest)) ≡ some (length f)
unfolding find_string
find_string_piece h t [] rest a = rw (is_prefix-append (h ∷ t) rest)
find_string_piece h t (c ∷ f) rest a =
    rw (is_prefix_other h c t (f ++ ((h ∷ t) ++ rest)) a.0) (rw (find_string_piece h t f rest a.1))

drop-both : (f sep rest : String) → drop (length f + length sep) (f ++ (sep ++ rest)) ≡ rest
drop-both f sep rest =
    rw (← append_assoc f sep rest, ← length-append f sep) (drop-append_length (f ++ sep) rest)

split_from-join :
    (h : ℕ) (t : String) (f : String) (fs : List String) (fuel : ℕ)
    → length fs < fuel
    → IsSplittable h t f fs
    → split_from fuel (h ∷ t) (join (h ∷ t) f fs) ≡ returned (length fs, f ∷ fs)
unfolding split_from join
split_from-join h t f fs zero enough ok = absurd (omega arith)
split_from-join h t f [] (suc fuel) enough ok = rw (ok, split_from)
split_from-join h t f (g ∷ gs) (suc fuel) enough (a, ok) =
    let rest = join (h ∷ t) g gs in
    let ran = split_from-join h t g gs fuel (omega arith) ok in
    rw (find_string_piece h t f rest a, split_from)
      (rw (drop-both f (h ∷ t) rest, take-append_length f ((h ∷ t) ++ rest))
        (rw ran (ap (λ n. returned (n, f ∷ g ∷ gs)) (omega arith))))

-- For two pieces or more, of which those before the last do not contain the first character of the
-- separator and the last does not contain the separator, and for fuel above the number of
-- separators by more than one, `splitList` of the pieces joined by the separator gives them back
-- and counts the separators.
pub split_list-join :
    (h : ℕ) (t : String) (f g : String) (gs : List String) (fuel : ℕ)
    → length gs + 1 < fuel
    → IsSplittable h t f (g ∷ gs)
    → split_list fuel (join (h ∷ t) f (g ∷ gs)) (h ∷ t) ≡ returned (length gs + 1, f ∷ g ∷ gs)
unfolding split_list join
split_list-join h t f g gs fuel enough ok =
    whole f
    ∙ split_from-join h t f (g ∷ gs) fuel (omega arith) ok
    ∙ ap (λ n. returned (n, f ∷ g ∷ gs)) (omega arith)
  where
    whole :
        (p : String)
        → split_list fuel (join (h ∷ t) p (g ∷ gs)) (h ∷ t)
          ≡ split_from fuel (h ∷ t) (join (h ∷ t) p (g ∷ gs))
    whole [] = refl
    whole (c ∷ p) = refl

-- A separator takes one character at least.
pub join-long : (h : ℕ) (t f : String) (fs : List String) → length fs ≤ length (join (h ∷ t) f fs)
unfolding join
join-long h t f [] = omega arith
join-long h t f (g ∷ gs) = omega (
  arith,
  join-long h t g gs,
  length-append f ((h ∷ t) ++ join (h ∷ t) g gs),
  length-append t (join (h ∷ t) g gs),
)
