-- ===== src/Analyzer/Paths/Backward.antt =====
-- The buffer of `canonpath`, read backward from `dest` (analyzer/lib/Utils/Path.cpp).
use arthas.Prelude.{
  ◌+◌, ◌≡◌, ◌≢◌, refl, false, List, [], ◌∷◌, ◌++◌, All, length, arith, ◌∙◌, ◌⊎◌, inl, inr,
}
use arthas.Prelude.Sort.{All-reverse}
use mathlib.Core.List.{reverse, reverse_aux}
use arthas.Analyzer.Strings.{String}
use arthas.Reactor.Platform.{returned}
use arthas.Analyzer.Paths.{is_slash, back_up, to_beginning, with_slash}
use arthas.Analyzer.Paths.Strip.{IsComponent}

-- A path from the root.
unfoldable pub rooted : List String → String
rooted [] = []
rooted (p ∷ ps) = 47 ∷ (p ++ rooted ps)

-- The text of a stack of components, the last character first.
unfoldable pub backward : List String → String
backward [] = []
backward (c ∷ st) = reverse c ++ (47 ∷ backward st)

-- What the buffer holds for a stack: its text, with a slash behind or not.
abbrev pub IsShown : List String → String → Type 0
IsShown st dest = (dest ≡ 47 ∷ backward st) ⊎ ((st ≢ []) × (dest ≡ backward st))

abbrev pub parent : List String → List String
parent [] = []
parent (c ∷ st) = st

reverse_aux-append :
    (c d r acc : String) → reverse_aux (reverse_aux c d ++ r) acc ≡ reverse_aux (d ++ r) (c ++ acc)
reverse_aux-append [] d r acc = refl
reverse_aux-append (x ∷ c) d r acc = reverse_aux-append c (x ∷ d) r acc

backward-reverse :
    (st ps : List String) → reverse_aux (backward st) (rooted ps) ≡ rooted (reverse_aux st ps)
unfolding backward rooted
backward-reverse [] ps = refl
backward-reverse (c ∷ st) ps =
    reverse_aux-append c [] (47 ∷ backward st) (rooted ps) ∙ backward-reverse st (c ∷ ps)

pub reverse-backward : (st : List String) → reverse (backward st) ≡ rooted (reverse st)
unfolding rooted
reverse-backward st = backward-reverse st []

pub reverse_aux_nonempty {ℓ} : {A : Type ℓ} (c d : List A) → d ≢ [] → reverse_aux c d ≢ []
reverse_aux_nonempty [] d h = h
reverse_aux_nonempty (x ∷ c) d h = reverse_aux_nonempty c (x ∷ d) (λ e. cc)

pub reverse-IsComponent : (c : String) → IsComponent c → IsComponent (reverse c)
reverse-IsComponent [] (a, ne) = absurd (ne refl)
reverse-IsComponent (x ∷ c) (a, ne) =
    (All-reverse (λ c. c ≢ 47) (x ∷ c) a, reverse_aux_nonempty c (x ∷ []) (λ e. cc))

reverse_aux-length : (c d : String) → length (reverse_aux c d) ≡ length c + length d
reverse_aux-length [] d = omega arith
reverse_aux-length (x ∷ c) d = let e = reverse_aux-length c (x ∷ d) in omega (arith, e)

pub reverse-length : (c : String) → length (reverse c) ≡ length c
reverse-length c = let e = reverse_aux-length c [] in omega (arith, e)

-- Before a component stands a slash.
back_up-component : (t r : String) → IsComponent t → back_up (t ++ (47 ∷ r)) ≡ 47 ∷ r
unfolding back_up
back_up-component [] r (a, ne) = absurd (ne refl)
back_up-component (x ∷ []) r is = refl
back_up-component (x ∷ y ∷ t) r ((nx, a), ne) =
    let e : is_slash y ≡ false = ground (arith, a.0) in
    rw e (back_up-component (y ∷ t) r (a, λ e. cc))

back_up-slash : (t r : String) → IsComponent t → back_up (47 ∷ (t ++ (47 ∷ r))) ≡ 47 ∷ r
unfolding back_up
back_up-slash [] r (a, ne) = absurd (ne refl)
back_up-slash (x ∷ t) r ((nx, a), ne) =
    let e : is_slash x ≡ false = ground (arith, nx) in
    rw e (back_up-component (x ∷ t) r ((nx, a), ne))

-- `..` takes the last component off, and stays at the root.
pub back_up-IsShown :
    (st : List String) (dest : String)
    → All IsComponent st
    → IsShown st dest
    → to_beginning (back_up dest) ≡ returned (47 ∷ backward (parent st))
unfolding backward back_up to_beginning
back_up-IsShown [] dest a (inl e) = rw e
back_up-IsShown [] dest a (inr (ne, e)) = absurd (ne refl)
back_up-IsShown (c ∷ st) dest (is, a) (inl e) =
    rw (e, back_up-slash (reverse c) (backward st) (reverse-IsComponent c is))
back_up-IsShown (c ∷ st) dest (is, a) (inr (ne, e)) =
    rw (e, back_up-component (reverse c) (backward st) (reverse-IsComponent c is))

-- A text that begins with a component.
with_slash-component : (t r : String) → IsComponent t → with_slash (t ++ r) ≡ 47 ∷ (t ++ r)
unfolding with_slash
with_slash-component [] r (a, ne) = absurd (ne refl)
with_slash-component (x ∷ t) r ((nx, a), ne) =
    let e : is_slash x ≡ false = ground (arith, nx) in rw e

pub with_slash-IsShown :
    (st : List String) (dest : String)
    → All IsComponent st
    → IsShown st dest
    → with_slash dest ≡ 47 ∷ backward st
unfolding backward with_slash
with_slash-IsShown [] dest a (inl e) = rw e
with_slash-IsShown [] dest a (inr (ne, e)) = absurd (ne refl)
with_slash-IsShown (c ∷ st) dest a (inl e) = rw e
with_slash-IsShown (c ∷ st) dest (is, a) (inr (ne, e)) =
    rw e (with_slash-component (reverse c) (47 ∷ backward st) (reverse-IsComponent c is))

-- The path from the root of a stack, which is never empty.
abbrev pub canonical : List String → String
canonical [] = 47 ∷ []
canonical (p ∷ ps) = rooted (p ∷ ps)
