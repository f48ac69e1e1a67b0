-- ===== src/Analyzer/Paths/Compare.antt =====
-- `pathendswith` and `pathneq` (analyzer/lib/Utils/Path.cpp).
use arthas.Prelude.{
  ℕ, zero, suc, ◌+◌, ◌-◌, ◌≤◌, ◌<◌, ◌≡◌, refl, Bool, true, false, ◌==◌, ◌&&◌, ltb, not, ℤ, pos,
  negsuc, List, [], ◌∷◌, ◌++◌, All, length, drop, take, take-append-drop, length-drop, length-take,
  subst, arith, ap, sym, ◌∙◌, ◌⊎◌, ◌↔◌, inl, inr, Bool-cases,
}
use arthas.Prelude.Sort.{All-reverse}
use mathlib.Core.List.{reverse}
use arthas.Analyzer.Strings.{String, str_equal}
use arthas.Analyzer.Strings.Equal.{str_equal-eq, str_equal_self}
use arthas.Analyzer.Strings.Join.{join}
use arthas.Reactor.Platform.{returned}
use arthas.Analyzer.Paths.{
  max_path, starts_slash, same_text, slash_before, ends_with, pathendswith, pathneq, stripname,
}
use arthas.Analyzer.Paths.Strip.{
  IsComponent, slash, drop_parts, last_part, stripped, stripname-join,
}
use arthas.Analyzer.Paths.Backward.{rooted, canonical}
use arthas.Analyzer.Paths.Canonical.{canonpath-IsCanonical}
use arthas.Analyzer.Paths.Components.{spaced, parts_of, resolve, resolve-All}

same_text-eq : (s t : String) → length s ≡ length t → same_text s t ≡ true → s ≡ t
unfolding same_text
same_text-eq [] [] l h = refl
same_text-eq [] (d ∷ t) l h = absurd (omega (arith, l))
same_text-eq (c ∷ s) [] l h = cc
same_text-eq (c ∷ s) (d ∷ t) l h = elim (Bool-cases (c == d)) [
  | inl e ↦
      let same : c ≡ d = ground arith in
      let rest : s ≡ t = same_text-eq s t (omega (arith, l)) (rw e at h) in cc
  | inr e ↦ let h' : false ≡ true = rw e at h in cc
]

same_text_self : (s : String) → same_text s s ≡ true
unfolding same_text
same_text_self [] = refl
same_text_self (c ∷ s) = let e : c == c ≡ true = ground arith in rw e (same_text_self s)

-- The text ends with the path, and if it starts at the root, a component starts there.
abbrev pub EndsWith : String → String → Type 0
EndsWith pbuf path2 =
    (before : String) × (pbuf ≡ before ++ path2)
    × ((starts_slash pbuf ≡ false)
        ⊎ ((before ≡ [])
            ⊎ ((starts_slash path2 ≡ true) ⊎ ((first : String) × (before ≡ first ++ slash)))))

slash_before-first :
    (before path2 : String)
    → slash_before (before ++ path2) (length before) ≡ true
    → (first : String) × (before ≡ first ++ slash)
slash_before-first [] path2 h = cc
slash_before-first (c ∷ []) path2 h = let e : c ≡ 47 = ground arith in ([], ap (λ c. c ∷ []) e)
slash_before-first (c ∷ d ∷ b) path2 h =
    let (first, e) = slash_before-first (d ∷ b) path2 h in (c ∷ first, ap (λ b. c ∷ b) e)

-- What the test of the boundary says.
boundary :
    (rooted slashed behind : Bool) (i : ℕ)
    → (rooted && ltb 0 i && not slashed && not behind) ≡ false
    → (rooted ≡ false) ⊎ ((i ≡ 0) ⊎ ((slashed ≡ true) ⊎ (behind ≡ true)))
boundary rooted slashed behind i h = ground arith

empty : (s : String) → length s ≡ 0 → s ≡ []
empty [] h = refl
empty (c ∷ s) h = absurd (omega (arith, h))

at_boundary :
    (before path2 : String)
    → (starts_slash (before ++ path2)
        && ltb 0 (length before)
        && not (starts_slash path2)
        && not (slash_before (before ++ path2) (length before)))
      ≡ false
    → EndsWith (before ++ path2) path2
at_boundary before path2 h = (
  before,
  refl,
  elim (boundary (starts_slash (before ++ path2)) (starts_slash path2)
      (slash_before (before ++ path2) (length before)) (length before) h) [
        | inl e ↦ inl e
        | inr (inl e) ↦ inr (inl (empty before e))
        | inr (inr (inl e)) ↦ inr (inr (inl e))
        | inr (inr (inr e)) ↦ inr (inr (inr (slash_before-first before path2 e)))
      ],
)

ends_with-EndsWith : (pbuf path2 : String) → ends_with pbuf path2 ≡ true → EndsWith pbuf path2
unfolding ends_with
ends_with-EndsWith pbuf path2 h =
    let i : ℕ = length pbuf - length path2 in
    let before : String = take i pbuf in
    elim (Bool-cases (ltb (length pbuf) (length path2))) [
      | inl e ↦ let h' : false ≡ true = rw e at h in cc
      | inr e ↦
          elim (Bool-cases (
            starts_slash pbuf
            && ltb 0 i
            && not (starts_slash path2)
            && not (slash_before pbuf i))) [
              | inl f ↦ let h' : false ≡ true = rw (e, f) at h in cc
              | inr f ↦
                  let h' : same_text (drop i pbuf) path2 ≡ true = rw (e, f) at h in
                  let l = length-drop i pbuf in
                  let long : length path2 ≤ length pbuf = ground arith in
                  let same : drop i pbuf ≡ path2 =
                    same_text-eq (drop i pbuf) path2 (omega (arith, l, long)) h' in
                  let whole : before ++ path2 ≡ pbuf =
                    ap (λ t. before ++ t) (sym same) ∙ take-append-drop i pbuf in
                  let size : length before ≡ i = let t = length-take i pbuf in omega (arith, t) in
                  subst (λ s. EndsWith s path2) whole
                    (at_boundary before path2 (rw (whole, size) f))
            ]
    ]

-- For such a path, `pathendswith` returns, and it is true only if the canonical form ends with the
-- other path, and either is that path, or has a slash at the start of the other path or right
-- before it.
pub pathendswith-EndsWith :
    (parts : List (ℕ × String)) (m fuel : ℕ) (path2 : String)
    → All IsComponent (parts_of parts)
    → 0 < length (spaced parts m)
    → length parts < fuel
    → length (spaced parts m) + 1 < max_path
    → (b : Bool) × (pathendswith fuel (spaced parts m) path2 ≡ returned b)
      × (b ≡ true → EndsWith (canonical (reverse (resolve [] (parts_of parts)))) path2)
unfolding pathendswith
pathendswith-EndsWith parts m fuel path2 a some_there enough short =
    let path : String = canonical (reverse (resolve [] (parts_of parts))) in
    (
      ends_with path path2,
      rw (canonpath-IsCanonical parts m fuel a some_there enough short),
      ends_with-EndsWith path path2,
    )

append_nil : (s : String) → s ++ [] ≡ s
append_nil [] = refl
append_nil (c ∷ s) = ap (λ t. c ∷ t) (append_nil s)

rooted-join : (p : String) (ps : List String) → rooted (p ∷ ps) ≡ join slash [] (p ∷ ps)
unfolding rooted join
rooted-join p [] = ap (λ t. 47 ∷ t) (append_nil p)
rooted-join p (q ∷ qs) = ap (λ t. 47 ∷ (p ++ t)) (rooted-join q qs)

-- What is left of a path from the root to the components: all of it for 0; for 1 the components
-- without the slash of the root; for each further number one component less at the front, but
-- never none; and for a negative number the last component.
abbrev pub without : ℤ → String → List String → String
without (pos zero) p ps = rooted (p ∷ ps)
without (pos (suc n)) p ps = drop_parts n p ps
without (negsuc n) p ps = last_part p ps

stripped-without : (n : ℤ) (p : String) (ps : List String) → stripped n [] (p ∷ ps) ≡ without n p ps
unfolding drop_parts last_part
stripped-without (pos zero) p ps = sym (rooted-join p ps)
stripped-without (pos (suc n)) p ps = refl
stripped-without (negsuc n) p ps = refl

-- For such a path that leads below the root, `pathneq` returns whether what is left of its
-- canonical form is the other path (`without`): all of it for `n` = 0; for a positive `n` the form
-- without the slash of the root and without its first `n` - 1 components, but always with the last
-- one; and for a negative `n` the last component only.
pub pathneq-IsEqual :
    (parts : List (ℕ × String)) (m fuel : ℕ) (path2 : String) (n : ℤ) (p : String)
    (ps : List String)
    → All IsComponent (parts_of parts)
    → 0 < length (spaced parts m)
    → length parts < fuel
    → length (spaced parts m) + 1 < max_path
    → reverse (resolve [] (parts_of parts)) ≡ p ∷ ps
    → (b : Bool) × (pathneq fuel (spaced parts m) path2 n ≡ returned b)
      × ((b ≡ true) ↔ (without n p ps ≡ path2))
unfolding pathneq
pathneq-IsEqual parts m fuel path2 n p ps a some_there enough short stack =
    let name : String = canonical (reverse (resolve [] (parts_of parts))) in
    let text : name ≡ join slash [] (p ∷ ps) = ap canonical stack ∙ rooted-join p ps in
    let comps : All IsComponent (p ∷ ps) = subst (All IsComponent) stack (
      All-reverse IsComponent (resolve [] (parts_of parts))
        (resolve-All (parts_of parts) [] a tt)) in
    let strips : stripname name n ≡ without n p ps =
      ap (λ t. stripname t n) text
      ∙ stripname-join n [] (p ∷ ps) tt comps
      ∙ stripped-without n p ps in
    (
      str_equal (stripname name n) path2,
      rw (canonpath-IsCanonical parts m fuel a some_there enough short),
      (
        (λ e. sym strips ∙ str_equal-eq (stripname name n) path2 e),
        λ e. rw (strips ∙ e) (str_equal_self path2),
      ),
    )
