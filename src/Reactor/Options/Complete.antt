-- ===== src/Reactor/Options/Complete.antt =====
-- `check_options` and the end of `parse_options` (reactor/lib/reactor-opts.cpp).
use arthas.Prelude.{
  ◌≤◌, ◌≡◌, refl, Bool, true, false, ◌||◌, not, if◌then◌else◌, ◌&&◌, ◌<ℤ◌, ltb_ℤ, ℤ, pos, Option,
  none, some, [], ◌∷◌, ◌≢◌, ◌⊎◌, inl, inr, Bool-cases, arith, ap, ◌∙◌, ◌↔◌,
}
use arthas.Analyzer.Strings.{String, str_equal, count_character}
use arthas.Analyzer.Strings.Equal.{str_equal-eq, str_equal_self}
use arthas.Reactor.Options.{
  ReactorOptions, libpmem, libpmemobj, check_options, is_known, is_null, holds, is_empty,
  is_located,
}

-- What the reactor needs to know.
pub record IsComplete (exists : String → Bool) (o : ReactorOptions) : Type 0 where
  pub pool : (file : String) × (o.pmem_file ≡ some file) × (exists file ≡ true)
  pub layout : (l : String) × (o.pmem_layout ≡ some l)
  pub library : (o.pmem_library ≡ some libpmem) ⊎ (o.pmem_library ≡ some libpmemobj)
  pub guids : (g : String) × (o.hook_guid_file ≡ some g)
  pub version : pos 0 <ℤ o.version_num
  pub command : (r : String) × (o.reexecute_cmd ≡ some r)
  pub location :
      (o.fault_loc ≡ [])
      ⊎ ((1 ≤ count_character 58 o.fault_loc) × (count_character 58 o.fault_loc ≤ 2))
  pub bitcode : o.bc_file ≢ []

known-cases : (l : String) → is_known l ≡ true → (l ≡ libpmem) ⊎ (l ≡ libpmemobj)
known-cases l h = elim (Bool-cases (str_equal l libpmem)) [
  | inl e ↦ inl (str_equal-eq l libpmem e)
  | inr e ↦ inr (str_equal-eq l libpmemobj (rw e at h))
]

-- A guard that was passed.
passed : (b r : Bool) → (if b then false else r) ≡ true → (b ≡ false) × (r ≡ true)
passed true r h = cc
passed false r h = (refl, h)

not_null : (o : Option String) → is_null o ≡ false → (s : String) × (o ≡ some s)
not_null none h = cc
not_null (some s) h = (s, refl)

held :
    (test : String → Bool) (o : Option String)
    → not (holds test o) ≡ false
    → (s : String) × (o ≡ some s) × (test s ≡ true)
held test none h = cc
held test (some s) h = (s, refl, ground arith)

located :
    (loc : String)
    → (not (is_empty loc) && not (is_located loc)) ≡ false
    → (loc ≡ []) ⊎ ((1 ≤ count_character 58 loc) × (count_character 58 loc ≤ 2))
located [] h = inl refl
located (c ∷ s) h = inr (ground arith)

not_empty : (s : String) → is_empty s ≡ false → s ≢ []
not_empty [] h = cc
not_empty (c ∷ s) h = λ e. cc

positive : (v : ℤ) → not (ltb_ℤ (pos 0) v) ≡ false → pos 0 <ℤ v
positive v h = ground arith

passes_version : (v : ℤ) → pos 0 <ℤ v → not (ltb_ℤ (pos 0) v) ≡ false
passes_version v h = ground arith

passes_location :
    (loc : String)
    → (loc ≡ []) ⊎ ((1 ≤ count_character 58 loc) × (count_character 58 loc ≤ 2))
    → (not (is_empty loc) && not (is_located loc)) ≡ false
passes_location [] h = refl
passes_location (c ∷ s) (inl e) = cc
passes_location (c ∷ s) (inr (a, b)) = ground arith

passes_bitcode : (s : String) → s ≢ [] → is_empty s ≡ false
passes_bitcode [] h = absurd (h refl)
passes_bitcode (c ∷ s) h = refl

either : (a b : Bool) → b ≡ true → (a || b) ≡ true
either true b h = refl
either false b h = h

known_library :
    (o : Option String)
    → (o ≡ some libpmem) ⊎ (o ≡ some libpmemobj)
    → (l : String) × (o ≡ some l) × (is_known l ≡ true)
known_library o (inl e) = (libpmem, e, rw (str_equal_self libpmem))
known_library o (inr e) =
    (libpmemobj, e, either (str_equal libpmemobj libpmem) _ (str_equal_self libpmemobj))

check_options_sound :
    (exists : String → Bool) (o : ReactorOptions)
    → check_options exists o ≡ true
    → IsComplete exists o
unfolding check_options
check_options_sound exists o h =
    let (_, h1) = passed (is_null o.pmem_file) _ h in
    let (file, h2) = passed _ _ h1 in
    let (layout, h3) = passed (is_null o.pmem_layout) _ h2 in
    let (_, h4) = passed (is_null o.pmem_library) _ h3 in
    let (lib, h5) = passed _ _ h4 in
    let (guids, h6) = passed (is_null o.hook_guid_file) _ h5 in
    let (version, h7) = passed _ _ h6 in
    let (command, h8) = passed (is_null o.reexecute_cmd) _ h7 in
    let (location, h9) = passed _ _ h8 in
    let (bitcode, _) = passed (is_empty o.bc_file) true h9 in
    let (l, e, k) = held is_known o.pmem_library lib in
    record {
      pool = held exists o.pmem_file file;
      layout = not_null o.pmem_layout layout;
      library = elim (known-cases l k) [
        | inl x ↦ inl (e ∙ ap some x)
        | inr x ↦ inr (e ∙ ap some x)
      ];
      guids = not_null o.hook_guid_file guids;
      version = positive o.version_num version;
      command = not_null o.reexecute_cmd command;
      location = located o.fault_loc location;
      bitcode = not_empty o.bc_file bitcode;
    }

check_options_complete :
    (exists : String → Bool) (o : ReactorOptions)
    → IsComplete exists o
    → check_options exists o ≡ true
unfolding check_options
check_options_complete exists o c =
    let (file, e1, there) = c.pool in
    let (l, e3) = c.layout in
    let (g, e5) = c.guids in
    let (r, e7) = c.command in
    let e6 : not (ltb_ℤ (pos 0) o.version_num) ≡ false = passes_version o.version_num c.version in
    let e8 : not (is_empty o.fault_loc) && not (is_located o.fault_loc) ≡ false =
      passes_location o.fault_loc c.location in
    let e9 : is_empty o.bc_file ≡ false = passes_bitcode o.bc_file c.bitcode in
    let (lib, e4, known) = known_library o.pmem_library c.library in
    rw (e1, there, e3, e4, known, e5, e6, e7, e8, e9)

-- Doc.
pub check_options-IsComplete :
    (exists : String → Bool) (o : ReactorOptions)
    → (check_options exists o ≡ true) ↔ IsComplete exists o
check_options-IsComplete exists o = (check_options_sound exists o, check_options_complete exists o)
