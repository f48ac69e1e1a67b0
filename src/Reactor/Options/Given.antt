-- ===== src/Reactor/Options/Given.antt =====
-- The options as the loop of `parse_options` leaves them (reactor/lib/reactor-opts.cpp).
use arthas.Prelude.{
  ℕ, ◌≡◌, refl, Bool, true, false, ◌==◌, if◌then◌else◌, ℤ, pos, Option, none, some, List, [], ◌∷◌,
  Bool-cases, inl, inr, arith, ap, subst, ◌∙◌,
}
use arthas.Analyzer.Strings.{String}
use arthas.Reactor.Options.{
  ReactorOptions, Flags, Received, character, flag, Parsing, answered, cleared, initial_flags,
  set_flag, handle_option, handle_options, or_default, parse_options, DgOptions, dg_options_of,
  not_zero,
}
use arthas.Reactor.Options.Switches.{
  switched, Follows, handle_options-switched, enable_pta-Follows, enable_control-Follows,
  slice_control-Follows, support_thread-Follows, intra_procedural-Follows, inter_procedural-Follows,
  entry_only-Follows,
}
use arthas.Reactor.Options.Accepted.{finish-IsAnswered}
use arthas.Reactor.Options.Integers.{read_int, parse_version}

abbrev later : Option String → Option String → Option String
later none o = o
later (some t) o = some t

-- The last argument given with a character.
unfoldable pub given : ℕ → List Received → Option String
given k [] = none
given k (flag row ∷ rest) = given k rest
given k (character c s ∷ rest) = later (given k rest) (if c == k then some s else none)

abbrev pub value {ℓ} : {A : Type ℓ} → A → (String → A) → Option String → A
value a of none = a
value a of (some s) = of s

-- A character that sets a field, and the others that leave it.
abbrev Sets {ℓ} : {A : Type ℓ} → (ReactorOptions → A) → ℕ → (String → A) → Type ℓ
Sets get k of =
    (c : ℕ) (s : String) (o : ReactorOptions) (f : Flags)
    → (handle_option c s o f).goes_on ≡ true
    → get (handle_option c s o f).options ≡ (if c == k then of s else get o)

pmem_file-Sets : Sets (λ o. o.pmem_file) 112 some
unfolding handle_option
pmem_file-Sets c s o f h = ground arith

pmem_layout-Sets : Sets (λ o. o.pmem_layout) 116 some
unfolding handle_option
pmem_layout-Sets c s o f h = ground arith

pmem_library-Sets : Sets (λ o. o.pmem_library) 108 some
unfolding handle_option
pmem_library-Sets c s o f h = ground arith

hook_guid_file-Sets : Sets (λ o. o.hook_guid_file) 103 some
unfolding handle_option
hook_guid_file-Sets c s o f h = ground arith

address_file-Sets : Sets (λ o. o.address_file) 97 some
unfolding handle_option
address_file-Sets c s o f h = ground arith

reexecute_cmd-Sets : Sets (λ o. o.reexecute_cmd) 114 some
unfolding handle_option
reexecute_cmd-Sets c s o f h = ground arith

fault_loc-Sets : Sets (λ o. o.fault_loc) 99 (λ s. s)
unfolding handle_option
fault_loc-Sets c s o f h = ground arith

fault_instr-Sets : Sets (λ o. o.fault_instr) 105 (λ s. s)
unfolding handle_option
fault_instr-Sets c s o f h = ground arith

bc_file-Sets : Sets (λ o. o.bc_file) 98 (λ s. s)
unfolding handle_option
bc_file-Sets c s o f h = ground arith

version_num-Sets : Sets (λ o. o.version_num) 110 (λ s. (parse_version s).0)
unfolding handle_option
version_num-Sets c s o f h = ground arith

batch_threshold-Sets : Sets (λ o. o.batch_threshold) 101 read_int
unfolding handle_option
batch_threshold-Sets c s o f h = ground arith

arckpt-Sets : Sets (λ o. o.arckpt) 122 (λ s. true)
unfolding handle_option
arckpt-Sets c s o f h = ground arith

value-later :
    {A : Type 0} (a : A) (of : String → A) (o : Option String) (b : Bool) (s : String)
    → value (if b then of s else a) of o ≡ value a of (later o (if b then some s else none))
value-later a of none true s = refl
value-later a of none false s = refl
value-later a of (some t) true s = refl
value-later a of (some t) false s = refl

handle_options-value :
    {A : Type 0} (get : ReactorOptions → A) (k : ℕ) (of : String → A)
    → Sets get k of
    → (received : List Received) (o : ReactorOptions) (f : Flags)
    → (handle_options received o f).goes_on ≡ true
    → get (handle_options received o f).options ≡ value (get o) of (given k received)
unfolding handle_options given
handle_options-value get k of sets [] o f h = refl
handle_options-value get k of sets (flag row ∷ rest) o f h =
    handle_options-value get k of sets rest o (set_flag row f) h
handle_options-value get k of sets (character c s ∷ rest) o f h =
    let p : Parsing = handle_option c s o f in
    elim (Bool-cases p.goes_on) [
      | inl e ↦ rw e (
          handle_options-value get k of sets rest p.options p.flags (rw e at h)
          ∙ ap (λ a. value a of (given k rest)) (sets c s o f e)
          ∙ value-later (get o) of (given k rest) (c == k) s)
      | inr e ↦ let h' : false ≡ true = rw e at h in cc
    ]

-- The options of the dependence graph as the long options without an argument say, by the rows of
-- `long_options`.
pub record AreSwitched (received : List Received) (d : DgOptions) : Type 0 where
  pub entry_only : d.entry_only ≡ switched 11 none false received
  pub enable_pta : d.enable_pta ≡ switched 2 (some 3) true received
  pub enable_ctrl : d.enable_ctrl ≡ switched 4 (some 5) false received
  pub slice_ctrl : d.slice_ctrl ≡ switched 6 none false received
  pub support_thread : d.support_thread ≡ switched 7 (some 8) false received
  pub inter_procedural : d.inter_procedural ≡ switched 10 none true received
  pub intra_procedural : d.intra_procedural ≡ switched 9 none false received

-- The options as the arguments say.
pub record IsGiven (received : List Received) (o : ReactorOptions) : Type 0 where
  pub pmem_file : o.pmem_file ≡ given 112 received
  pub pmem_layout : o.pmem_layout ≡ given 116 received
  pub pmem_library : o.pmem_library ≡ or_default (given 108 received)
  pub hook_guid_file : o.hook_guid_file ≡ given 103 received
  pub address_file : o.address_file ≡ given 97 received
  pub reexecute_cmd : o.reexecute_cmd ≡ given 114 received
  pub fault_loc : o.fault_loc ≡ value [] (λ s. s) (given 99 received)
  pub fault_instr : o.fault_instr ≡ value [] (λ s. s) (given 105 received)
  pub bc_file : o.bc_file ≡ value [] (λ s. s) (given 98 received)
  pub version_num : o.version_num ≡ value (pos 0) (λ s. (parse_version s).0) (given 110 received)
  pub batch_threshold : o.batch_threshold ≡ value (pos 0) read_int (given 101 received)
  pub arckpt : o.arckpt ≡ value false (λ s. true) (given 122 received)
  pub checkpoint_file : o.checkpoint_file ≡ none
  pub dg_options : AreSwitched received o.dg_options

handle_option-checkpoint_file :
    (c : ℕ) (s : String) (o : ReactorOptions) (f : Flags)
    → (handle_option c s o f).options.checkpoint_file ≡ o.checkpoint_file
unfolding handle_option
handle_option-checkpoint_file c s o f = ground arith

-- No option sets it.
handle_options-checkpoint_file :
    (received : List Received) (o : ReactorOptions) (f : Flags)
    → (handle_options received o f).goes_on ≡ true
    → (handle_options received o f).options.checkpoint_file ≡ o.checkpoint_file
unfolding handle_options
handle_options-checkpoint_file [] o f h = refl
handle_options-checkpoint_file (flag row ∷ rest) o f h =
    handle_options-checkpoint_file rest o (set_flag row f) h
handle_options-checkpoint_file (character c s ∷ rest) o f h =
    let p : Parsing = handle_option c s o f in
    elim (Bool-cases p.goes_on) [
      | inl e ↦ rw e (
          handle_options-checkpoint_file rest p.options p.flags (rw e at h)
          ∙ handle_option-checkpoint_file c s o f)
      | inr e ↦ let h' : false ≡ true = rw e at h in cc
    ]

handle_options-AreSwitched :
    (received : List Received)
    → (handle_options received cleared initial_flags).goes_on ≡ true
    → AreSwitched received (dg_options_of (handle_options received cleared initial_flags).flags)
handle_options-AreSwitched received h =
    let at : (get : Flags → ℕ)
        → ((f : Flags) → get (record f { show_help = 1 }) ≡ get f)
        → (on : ℕ) (off : Option ℕ) → Follows get on off
        → not_zero (get (handle_options received cleared initial_flags).flags)
          ≡ switched on off (not_zero (get initial_flags)) received =
      λ get spared on off follows.
        handle_options-switched get spared on off follows received cleared initial_flags h in
    record {
      entry_only = at (λ f. f.entry_only) (λ f. refl) 11 none entry_only-Follows;
      enable_pta = at (λ f. f.enable_pta) (λ f. refl) 2 (some 3) enable_pta-Follows;
      enable_ctrl = at (λ f. f.enable_control) (λ f. refl) 4 (some 5) enable_control-Follows;
      slice_ctrl = at (λ f. f.slice_control) (λ f. refl) 6 none slice_control-Follows;
      support_thread = at (λ f. f.support_thread) (λ f. refl) 7 (some 8) support_thread-Follows;
      inter_procedural = at (λ f. f.inter_procedural) (λ f. refl) 10 none inter_procedural-Follows;
      intra_procedural = at (λ f. f.intra_procedural) (λ f. refl) 9 none intra_procedural-Follows;
    }

value-some : (o : Option String) → value none some o ≡ o
value-some none = refl
value-some (some s) = refl

-- When `parse_options` answers true, each option that takes its argument has the value of the last
-- one given for it, or its value from the start if there was none, which is libpmem for the
-- library; `arckpt` is true if `-z` was given; each option of the dependence graph is as the last
-- long option for it says, or as at the start if there was none; and the checkpoint file, which no
-- option sets, is null.
pub parse_options-IsGiven :
    (exists : String → Bool) (received : List Received) (o : ReactorOptions) (f : Flags)
    → parse_options exists received initial_flags ≡ answered true o f
    → IsGiven received o
unfolding parse_options
parse_options-IsGiven exists received o f h =
    let p : Parsing = handle_options received cleared initial_flags in
    let a = finish-IsAnswered exists p o f h in
    let pointer : (get : ReactorOptions → Option String) (k : ℕ)
        → Sets get k some
        → get cleared ≡ none
        → get p.options ≡ given k received =
      λ get k sets e.
        handle_options-value get k some sets received cleared initial_flags a.on
        ∙ ap (λ z. value z some (given k received)) e
        ∙ value-some (given k received) in
    let last : (A : Type 0) (get : ReactorOptions → A) (k : ℕ) (of : String → A)
        → Sets get k of
        → get p.options ≡ value (get cleared) of (given k received) =
      λ A get k of sets. handle_options-value get k of sets received cleared initial_flags a.on in
    subst (IsGiven received) a.full record {
      pmem_file = pointer (λ o. o.pmem_file) 112 pmem_file-Sets refl;
      pmem_layout = pointer (λ o. o.pmem_layout) 116 pmem_layout-Sets refl;
      pmem_library = ap or_default (pointer (λ o. o.pmem_library) 108 pmem_library-Sets refl);
      hook_guid_file = pointer (λ o. o.hook_guid_file) 103 hook_guid_file-Sets refl;
      address_file = pointer (λ o. o.address_file) 97 address_file-Sets refl;
      reexecute_cmd = pointer (λ o. o.reexecute_cmd) 114 reexecute_cmd-Sets refl;
      fault_loc = last String (λ o. o.fault_loc) 99 (λ s. s) fault_loc-Sets;
      fault_instr = last String (λ o. o.fault_instr) 105 (λ s. s) fault_instr-Sets;
      bc_file = last String (λ o. o.bc_file) 98 (λ s. s) bc_file-Sets;
      version_num = last ℤ (λ o. o.version_num) 110 (λ s. (parse_version s).0) version_num-Sets;
      batch_threshold = last ℤ (λ o. o.batch_threshold) 101 read_int batch_threshold-Sets;
      arckpt = last Bool (λ o. o.arckpt) 122 (λ s. true) arckpt-Sets;
      checkpoint_file = handle_options-checkpoint_file received cleared initial_flags a.on;
      dg_options = handle_options-AreSwitched received a.on;
    }
