-- ===== src/Analyzer/GuidMap/RoundTrip.antt =====
-- Writing a map and reading it again (analyzer/lib/Instrument/PmemVarGuidMap.cpp).
use arthas.Prelude.{
  ℕ, suc, ◌^◌, ◌<◌, ◌≡◌, ◌≢◌, refl, Bool, true, false, ◌==◌, ltb, none, some, List, [], ◌∷◌, ◌++◌,
  All, All-append, arith, length, ap, ◌∙◌,
}
use mathlib.Core.List.{append_assoc, append-nil}
use arthas.Reactor.Platform.{returned}
use arthas.Analyzer.Strings.{String, find_string, split_list}
use arthas.Analyzer.Strings.Join.{join, IsSplittable, split_list-join, join-long}
use arthas.Analyzer.Numbers.{show}
use arthas.Analyzer.Numbers.Decimal.{str2fmt-show, show-All}
use arthas.Analyzer.GuidMap.{
  GuidMapEntry, GuidMap, add, field_separator, newline, serialize_entry, serialize, get_lines,
  loaded, read_entry, after_line, read_lines, deserialize,
}

-- Neither `#` nor the end of a line.
abbrev pub IsPlain : String → Type 0
IsPlain = All (λ c. (c ≢ 35) × (c ≢ newline))

-- The numbers fit their types, the fields before the instruction are plain, and the instruction
-- has no separator and is one line.
pub record IsPrintable (e : GuidMapEntry) : Type 0 where
  pub small_guid : e.guid < 2 ^ 64
  pub small_line : e.line < 2 ^ 32
  pub path : IsPlain e.source_path
  pub file : IsPlain e.source_file
  pub function : IsPlain e.function
  pub instruction : find_string field_separator e.instruction ≡ none
  pub one_line : All (λ c. c ≢ newline) e.instruction

abbrev pub IsRising : GuidMap → Type 0
IsRising [] = Unit
IsRising (e ∷ m) = All (λ x. e.guid < x.guid) m × IsRising m

no_hash : (s : String) → IsPlain s → All (λ c. c ≢ 35) s
no_hash [] p = tt
no_hash (c ∷ s) p = (p.0.0, no_hash s p.1)

no_newline : (s : String) → IsPlain s → All (λ c. c ≢ newline) s
no_newline [] p = tt
no_newline (c ∷ s) p = (p.0.1, no_newline s p.1)

show-Plain : (n : ℕ) → IsPlain (show n)
show-Plain n =
    show-All (λ c. (c ≢ 35) × (c ≢ newline)) n
      (λ d h. ((λ e. omega (arith, e)), (λ e. omega (arith, e))))

module _ (e : GuidMapEntry) (p : IsPrintable e) where
  abbrev fields : List String
  fields = e.source_path ∷ e.source_file ∷ e.function ∷ show e.line ∷ e.instruction ∷ []

  serialize_entry-join : serialize_entry e ≡ join field_separator (show e.guid) fields
  unfolding serialize_entry join
  serialize_entry-join = refl

  fields-IsSplittable : IsSplittable 35 (35 ∷ []) (show e.guid) fields
  fields-IsSplittable = (
    no_hash (show e.guid) (show-Plain e.guid),
    (
      no_hash e.source_path p.path,
      (
        no_hash e.source_file p.file,
        (no_hash e.function p.function, (no_hash (show e.line) (show-Plain e.line), p.instruction)),
      ),
    ),
  )

  split-entry :
      split_list (suc (length (serialize_entry e))) (serialize_entry e) field_separator
      ≡ returned (5, show e.guid ∷ fields)
  split-entry = rw serialize_entry-join (
      split_list-join 35 (35 ∷ []) (show e.guid) e.source_path
        (e.source_file ∷ e.function ∷ show e.line ∷ e.instruction ∷ [])
        (suc (length (join field_separator (show e.guid) fields)))
        (omega (arith, join-long 35 (35 ∷ []) (show e.guid) fields)) fields-IsSplittable)

  read-entry : read_entry (show e.guid ∷ fields) ≡ some (some e)
  unfolding read_entry
  read-entry = rw (str2fmt-show 64 e.guid p.small_guid) (rw (str2fmt-show 32 e.line p.small_line))

  with_separator :
      (s t : String)
      → All (λ c. c ≢ newline) s
      → All (λ c. c ≢ newline) t
      → All (λ c. c ≢ newline) (s ++ (field_separator ++ t))
  with_separator s t a b =
      All-append (λ c. c ≢ newline) s (field_separator ++ t) a
        ((λ x. omega (arith, x)), ((λ x. omega (arith, x)), b))

  entry-one_line : All (λ c. c ≢ newline) (serialize_entry e)
  unfolding serialize_entry
  entry-one_line = with_separator (show e.guid) _ (no_newline (show e.guid) (show-Plain e.guid)) (
      with_separator e.source_path _ (no_newline e.source_path p.path) (
        with_separator e.source_file _ (no_newline e.source_file p.file) (
          with_separator e.function _ (no_newline e.function p.function) (
            with_separator (show e.line) _ (no_newline (show e.line) (show-Plain e.line))
              p.one_line))))

pub get_lines-line :
    (l rest : String)
    → All (λ c. c ≢ newline) l
    → get_lines (l ++ (newline ∷ rest)) ≡ l ∷ get_lines rest
unfolding get_lines
get_lines-line [] rest a = refl
get_lines-line (c ∷ l) rest a =
    let other : c == newline ≡ false = ground (arith, a.0) in rw (other, get_lines-line l rest a.1)

add-last : (e : GuidMapEntry) (m : GuidMap) → All (λ x. x.guid < e.guid) m → add e m ≡ m ++ e ∷ []
unfolding add
add-last e [] a = refl
add-last e (x ∷ m) a =
    let differ : e.guid == x.guid ≡ false = ground arith in
    let later : ltb e.guid x.guid ≡ false = ground arith in
    rw (differ, later) (ap (λ t. x ∷ t) (add-last e m a.1))

-- The entries in `m` come behind those in `acc`.
abbrev Behind : GuidMap → GuidMap → Type 0
Behind acc m = All (λ e. All (λ x. x.guid < e.guid) acc) m

Behind-snoc :
    (acc : GuidMap) (e : GuidMapEntry) (m : GuidMap)
    → Behind acc m
    → All (λ x. e.guid < x.guid) m
    → Behind (acc ++ e ∷ []) m
Behind-snoc acc e [] b r = tt
Behind-snoc acc e (x ∷ m) b r =
    (All-append (λ y. y.guid < x.guid) acc (e ∷ []) b.0 (r.0, tt), Behind-snoc acc e m b.1 r.1)

pub get_lines-nil : get_lines [] ≡ []
unfolding get_lines
get_lines-nil = refl

read_lines-serialize :
    (ignore_bad_line : Bool) (m acc : GuidMap)
    → All IsPrintable m
    → IsRising m
    → Behind acc m
    → read_lines ignore_bad_line (get_lines (serialize m)) acc ≡ returned (loaded true (acc ++ m))
unfolding serialize read_lines after_line
read_lines-serialize b [] acc ps r behind = rw (get_lines-nil, append-nil)
read_lines-serialize b (e ∷ m) acc (p, ps) (first, r) (before, behind) =
    rw (get_lines-line (serialize_entry e) (serialize m) (entry-one_line e p)) (
      rw (split-entry e p) (
        ap (after_line b (read_lines b (get_lines (serialize m))) acc) (read-entry e p)
        ∙ ap (read_lines b (get_lines (serialize m))) (add-last e acc before)
        ∙ read_lines-serialize b m (acc ++ e ∷ []) ps r (Behind-snoc acc e m behind first)
        ∙ ap (λ t. returned (loaded true t)) (append_assoc acc (e ∷ []) m)))

nothing-Behind : (m : GuidMap) → Behind [] m
nothing-Behind [] = tt
nothing-Behind (e ∷ m) = (tt, nothing-Behind m)

-- For a map by rising identifiers below 2^64, whose lines are below 2^32, whose paths, files and
-- functions have neither `#` nor the end of a line, and whose instructions have no `##` and are one
-- line, `deserialize` of what `serialize` writes returns true and gives the map back, whether bad
-- lines are ignored or not.
pub deserialize-serialize :
    (ignore_bad_line : Bool) (m : GuidMap)
    → All IsPrintable m
    → IsRising m
    → deserialize (some (serialize m)) [] ignore_bad_line ≡ returned (loaded true m)
unfolding deserialize
deserialize-serialize ignore_bad_line m printable rising =
    read_lines-serialize ignore_bad_line m [] printable rising (nothing-Behind m)
