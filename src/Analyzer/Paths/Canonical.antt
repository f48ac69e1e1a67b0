-- ===== src/Analyzer/Paths/Canonical.antt =====
-- `canonpath` on a path from the root (analyzer/lib/Utils/Path.cpp).
use arthas.Prelude.{
  ℕ, zero, suc, ◌+◌, ◌≤◌, ◌<◌, ◌≡◌, ◌≢◌, refl, false, leb, some, List, [], ◌∷◌, ◌++◌, All, length,
  replicate, length-append, arith, ap, sym, ◌∙◌, inl, inr, Bool-cases,
}
use mathlib.Core.List.{reverse}
use arthas.Analyzer.Strings.{String}
use arthas.Reactor.Platform.{returned}
use arthas.Analyzer.Paths.{
  max_path, is_slash, take_component, with_slash, without_slash, is_dot, is_dot_dot, put_component,
  walk_components, canonpath,
}
use arthas.Analyzer.Paths.Strip.{IsComponent}
use arthas.Analyzer.Paths.Backward.{
  backward, rooted, IsShown, parent, canonical, reverse-backward, reverse-length, back_up-IsShown,
  with_slash-IsShown, reverse-IsComponent, reverse_aux_nonempty,
}
use arthas.Analyzer.Paths.Components.{
  spaced, parts_of, enter, resolve, parent-All, first-component, skip_slashes-all,
}

without_slash-behind : (t r : String) → IsComponent t → without_slash (47 ∷ (t ++ r)) ≡ t ++ r
unfolding without_slash
without_slash-behind [] r (a, ne) = absurd (ne refl)
without_slash-behind (x ∷ t) r is = refl

without_slash-component :
    (t r : String) → IsComponent t → without_slash (t ++ (47 ∷ r)) ≡ t ++ (47 ∷ r)
unfolding without_slash
without_slash-component [] r (a, ne) = absurd (ne refl)
without_slash-component (x ∷ []) r ((nx, a), ne) =
    let e : is_slash x ≡ false = ground (arith, nx) in rw e
without_slash-component (x ∷ y ∷ t) r ((nx, a), ne) =
    let e : is_slash x ≡ false = ground (arith, nx) in rw e

canonical_nonempty : (ps : List String) → ps ≢ [] → canonical ps ≡ rooted ps
canonical_nonempty [] ne = absurd (ne refl)
canonical_nonempty (p ∷ ps) ne = refl

without_slash-IsShown :
    (st : List String) (dest : String)
    → All IsComponent st
    → IsShown st dest
    → reverse (without_slash dest) ≡ canonical (reverse st)
unfolding without_slash backward
without_slash-IsShown [] dest a (inl e) = rw e
without_slash-IsShown [] dest a (inr (ne, e)) = absurd (ne refl)
without_slash-IsShown (c ∷ st) dest (is, a) s =
    let text : without_slash dest ≡ backward (c ∷ st) = elim s [
      | inl e ↦ rw e (without_slash-behind (reverse c) _ (reverse-IsComponent c is))
      | inr (ne, e) ↦ rw e (without_slash-component (reverse c) _ (reverse-IsComponent c is))
    ] in
    ap reverse text
    ∙ reverse-backward (c ∷ st)
    ∙ sym (canonical_nonempty (reverse (c ∷ st)) (reverse_aux_nonempty st (c ∷ []) (λ e. cc)))

-- What a component leaves in the buffer.
record Puts (part dest : String) (st : List String) : Type 0 where
  pub text : String
  pub put : put_component part dest ≡ returned (some text)
  pub shown : IsShown (enter part st) text
  pub components : All IsComponent (enter part st)
  pub short : length text ≤ length dest + 1 + length part

parent-length :
    (st : List String) (dest : String)
    → IsShown st dest
    → length (47 ∷ backward (parent st)) ≤ length dest
unfolding backward
parent-length [] dest (inl e) = rw e (omega arith)
parent-length [] dest (inr (ne, e)) = absurd (ne refl)
parent-length (c ∷ st) dest s =
    let n = length-append (reverse c) (47 ∷ backward st) in
    elim s [ inl e ↦ rw e (omega (arith, n)) | inr (ne, e) ↦ rw e (omega (arith, n)) ]

with_slash-length : (dest : String) → length (with_slash dest) ≤ length dest + 1
unfolding with_slash
with_slash-length [] = omega arith
with_slash-length (c ∷ s) = elim (Bool-cases (is_slash c)) [
  | inl e ↦ rw e (omega arith)
  | inr e ↦ rw e (omega arith)
]

put_component-Puts :
    (part dest : String) (st : List String)
    → IsComponent part
    → All IsComponent st
    → IsShown st dest
    → length dest + 1 + length part < max_path
    → Puts part dest st
unfolding put_component enter backward
put_component-Puts part dest st is a s short = elim (Bool-cases (is_dot part)) [
  | inl e ↦ record {
    text = dest;
    put = rw e;
    shown = rw e s;
    components = rw e a;
    short = omega arith;
  }
  | inr e ↦ elim (Bool-cases (is_dot_dot part)) [
    | inl f ↦ record {
      text = 47 ∷ backward (parent st);
      put = rw (e, f, back_up-IsShown st dest a s);
      shown = rw (e, f) (inl refl);
      components = rw (e, f) (parent-All st a);
      short = let n = parent-length st dest s in omega (arith, n);
    }
    | inr f ↦
        let slashed : with_slash dest ≡ 47 ∷ backward st = with_slash-IsShown st dest a s in
        let n : length (with_slash dest) ≤ length dest + 1 = with_slash-length dest in
        let shown_behind : reverse part ++ with_slash dest ≡ backward (part ∷ st) =
          ap (λ d. reverse part ++ d) slashed in
        let fits : leb max_path (length (with_slash dest) + length part) ≡ false = ground arith in
        record {
          text = reverse part ++ with_slash dest;
          put = rw (e, f, fits);
          shown = rw (e, f) (inr ((λ e. cc), shown_behind));
          components = rw (e, f) (is, a);
          short =
              let l = length-append (reverse part) (with_slash dest) in
              let r = reverse-length part in omega (arith, l, r, n);
        }
  ]
]

walk_components-step :
    (n : ℕ) (p : String) (ps : List (ℕ × String)) (m fuel : ℕ) (dest text : String)
    → IsComponent p
    → put_component p dest ≡ returned (some text)
    → walk_components (suc fuel) (spaced ((n, p) ∷ ps) m) dest
      ≡ walk_components fuel (spaced ps m) text
unfolding walk_components
walk_components-step n [] ps m fuel dest text (a, ne) ran = absurd (ne refl)
walk_components-step n (c ∷ p) ps m fuel dest text is ran =
    let first = first-component n (c ∷ p) ps m is in
    rw (walk_components, first, ran) (ap (λ r. walk_components fuel r.1 text) first)

walk_components-end :
    (m fuel : ℕ) (dest : String)
    → walk_components (suc fuel) (spaced [] m) dest ≡ returned (some (reverse (without_slash dest)))
unfolding walk_components spaced take_component
walk_components-end m fuel dest = rw (walk_components, skip_slashes-all m)

spaced-length :
    (n : ℕ) (p : String) (ps : List (ℕ × String)) (m : ℕ)
    → 1 + length p + length (spaced ps m) ≤ length (spaced ((n, p) ∷ ps) m)
unfolding spaced
spaced-length n p ps m =
    let e = length-append (replicate n 47) (p ++ spaced ps m) in
    let f = length-append p (spaced ps m) in omega (arith, e, f)

walk_components-IsCanonical :
    (parts : List (ℕ × String)) (m fuel : ℕ) (st : List String) (dest : String)
    → All IsComponent (parts_of parts)
    → All IsComponent st
    → IsShown st dest
    → length parts < fuel
    → length dest + length (spaced parts m) < max_path
    → walk_components fuel (spaced parts m) dest
      ≡ returned (some (canonical (reverse (resolve st (parts_of parts)))))
unfolding resolve
walk_components-IsCanonical parts m zero st dest a b s enough short = absurd (omega arith)
walk_components-IsCanonical [] m (suc fuel) st dest a b s enough short =
    walk_components-end m fuel dest
    ∙ ap (λ t. returned (some t)) (without_slash-IsShown st dest b s)
walk_components-IsCanonical ((n, p) ∷ ps) m (suc fuel) st dest (is, a) b s enough short =
    let l = spaced-length n p ps m in
    let put = put_component-Puts p dest st is b s (omega (arith, l)) in
    let still = put.short in
    walk_components-step n p ps m fuel dest put.text is put.put
    ∙ walk_components-IsCanonical ps m fuel (enter p st) put.text a put.components put.shown
        (omega arith) (omega (arith, l, still))

-- For a path from the root, of components each behind one slash or more, with any slashes behind
-- the last one, shorter than 511 characters, and fuel above the number of its components,
-- `canonpath` returns the path from the root to the directory that the components lead to: `.`
-- stays, `..` goes up and stays at the root, and every other component goes down.
pub canonpath-IsCanonical :
    (parts : List (ℕ × String)) (m fuel : ℕ)
    → All IsComponent (parts_of parts)
    → 0 < length (spaced parts m)
    → length parts < fuel
    → length (spaced parts m) + 1 < max_path
    → canonpath fuel (spaced parts m)
      ≡ returned (some (canonical (reverse (resolve [] (parts_of parts)))))
unfolding canonpath spaced backward
canonpath-IsCanonical [] zero fuel a some_there enough short = absurd (omega arith)
canonpath-IsCanonical [] (suc m) fuel a some_there enough short =
    walk_components-IsCanonical [] (suc m) fuel [] (47 ∷ []) a tt (inl refl) enough (omega arith)
canonpath-IsCanonical ((n, p) ∷ ps) m fuel a some_there enough short =
    walk_components-IsCanonical ((n, p) ∷ ps) m fuel [] (47 ∷ []) a tt (inl refl) enough
      (omega arith)
