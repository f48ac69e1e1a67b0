-- ===== src/Analyzer/Paths/Strip.antt =====
-- `stripname` on the parts of a path (analyzer/lib/Utils/Path.cpp).
use arthas.Prelude.{
  ℕ, zero, suc, ◌≡◌, ◌≢◌, refl, Bool, true, false, ◌==◌, ℤ, pos, negsuc, List, [], ◌∷◌, ◌++◌, All,
  arith, ◌∙◌, if◌then◌else◌,
}
use arthas.Analyzer.Strings.{String}
use arthas.Analyzer.Strings.Join.{join}
use arthas.Analyzer.Paths.{is_slash, starts_slash, strip_from, stripname}

abbrev pub slash : String
slash = 47 ∷ []

-- A component of a path has no slash and is not empty.
abbrev pub HasNoSlash : String → Type 0
HasNoSlash p = All (λ c. c ≢ 47) p

abbrev pub IsComponent : String → Type 0
IsComponent p = HasNoSlash p × (p ≢ [])

-- The path without its first parts, but never without its last one.
unfoldable pub drop_parts : ℕ → String → List String → String
drop_parts zero p ps = join slash p ps
drop_parts (suc n) p [] = p
drop_parts (suc n) p (q ∷ qs) = drop_parts n q qs

unfoldable pub last_part : String → List String → String
last_part p [] = p
last_part p (q ∷ qs) = last_part q qs

-- What is left: a negative number of components strips all but the last.
abbrev pub stripped : ℤ → String → List String → String
stripped (pos n) p ps = drop_parts n p ps
stripped (negsuc n) p ps = last_part p ps

strip_from-part :
    (every : Bool) (left : ℤ) (best p rest : String)
    → HasNoSlash p
    → strip_from every left best (p ++ rest) ≡ strip_from every left best rest
unfolding strip_from
strip_from-part every left best [] rest a = refl
strip_from-part every left best (c ∷ p) rest (ne, a) =
    let e : is_slash c ≡ false = ground arith in rw e (strip_from-part every left best p rest a)

-- The text of parts begins with its first part.
join-starts :
    (p : String) (ps : List String) → IsComponent p → starts_slash (join slash p ps) ≡ false
unfolding join
join-starts [] ps (a, ne) = absurd (ne refl)
join-starts (c ∷ p) [] (a, ne) = ground arith
join-starts (c ∷ p) (q ∷ qs) (a, ne) = ground arith

strip_from-slash :
    (n : ℕ) (best p : String) (ps : List String)
    → IsComponent p
    → let name = join slash p ps in
      strip_from false (pos (suc n)) best (47 ∷ name)
      ≡ (if n == 0 then name else strip_from false (pos n) name name)
unfolding strip_from
strip_from-slash n best p ps is = rw (join-starts p ps is)

strip_from-all :
    (n : ℕ) (best p : String) (ps : List String)
    → IsComponent p
    → let name = join slash p ps in
      strip_from true (negsuc n) best (47 ∷ name) ≡ strip_from true (negsuc n) name name
unfolding strip_from
strip_from-all n best p ps is = rw (join-starts p ps is)

strip_from-whole :
    (every : Bool) (left : ℤ) (best p : String) → HasNoSlash p → strip_from every left best p ≡ best
unfolding strip_from
strip_from-whole every left best [] a = refl
strip_from-whole every left best (c ∷ p) (ne, a) =
    let e : is_slash c ≡ false = ground arith in rw e (strip_from-whole every left best p a)

strip_from-parts :
    (n : ℕ) (p : String) (ps : List String)
    → HasNoSlash p
    → All IsComponent ps
    → strip_from false (pos (suc n)) (join slash p ps) (join slash p ps) ≡ drop_parts (suc n) p ps
unfolding join drop_parts
strip_from-parts n p [] a b = strip_from-whole false (pos (suc n)) p p a
strip_from-parts zero p (q ∷ qs) a (b, bs) =
    strip_from-part false (pos 1) _ p (47 ∷ join slash q qs) a ∙ strip_from-slash 0 _ q qs b
strip_from-parts (suc n) p (q ∷ qs) a (b, bs) =
    let e : suc n == 0 ≡ false = ground arith in
    strip_from-part false (pos (suc (suc n))) _ p (47 ∷ join slash q qs) a
    ∙ strip_from-slash (suc n) _ q qs b
    ∙ rw e (strip_from-parts n q qs b.0 bs)

strip_from-last :
    (n : ℕ) (p : String) (ps : List String)
    → HasNoSlash p
    → All IsComponent ps
    → strip_from true (negsuc n) (join slash p ps) (join slash p ps) ≡ last_part p ps
unfolding join last_part
strip_from-last n p [] a b = strip_from-whole true (negsuc n) p p a
strip_from-last n p (q ∷ qs) a (b, bs) =
    strip_from-part true (negsuc n) _ p (47 ∷ join slash q qs) a
    ∙ strip_from-all n _ q qs b
    ∙ strip_from-last n q qs b.0 bs

-- Doc.
pub stripname-join :
    (n : ℤ) (p : String) (ps : List String)
    → HasNoSlash p
    → All IsComponent ps
    → stripname (join slash p ps) n ≡ stripped n p ps
unfolding stripname drop_parts
stripname-join (pos zero) p ps a b = refl
stripname-join (pos (suc n)) p ps a b =
    let e : suc n == 0 ≡ false = ground arith in rw e (strip_from-parts n p ps a b)
stripname-join (negsuc n) p ps a b = strip_from-last n p ps a b
