-- ===== src/Reactor/Options.antt =====
-- The command line of the reactor (reactor/lib/reactor-opts.cpp, reactor/include/reactor-opts.h).
-- What `getopt_long` returns, call by call, is an argument, and so is `access`.
pub mod Integers
pub mod Complete
pub mod Accepted
pub mod Given
pub mod Switches
pub mod Versions
use arthas.Prelude.{
  ℕ, zero, suc, Bool, true, false, ◌&&◌, ◌||◌, ◌==◌, ltb, not, ltb_ℤ, ℤ, pos, Option, none, some,
  List, [], ◌∷◌, get_elem?, if◌then◌else◌,
}
use arthas.Analyzer.Strings.{String, str_equal, count_character}
use arthas.Reactor.Options.Integers.{read_int, parse_version}

pub record DgOptions : Type 0 where
  pub entry_only : Bool
  pub enable_pta : Bool
  pub enable_ctrl : Bool
  pub slice_ctrl : Bool
  pub support_thread : Bool
  pub intra_procedural : Bool
  pub inter_procedural : Bool

-- A `const char *` is none when it is null.
pub record ReactorOptions : Type 0 where
  pub address_file : Option String
  pub checkpoint_file : Option String
  pub pmem_file : Option String
  pub pmem_layout : Option String
  pub pmem_library : Option String
  pub hook_guid_file : Option String
  pub reexecute_cmd : Option String
  pub arckpt : Bool
  pub batch_threshold : ℤ
  pub version_num : ℤ
  pub fault_instr : String
  pub fault_loc : String
  pub bc_file : String
  pub dg_options : DgOptions

-- The static variables that the long options set.
pub record Flags : Type 0 where
  pub show_help : ℕ
  pub skip_check : ℕ
  pub enable_pta : ℕ
  pub enable_control : ℕ
  pub slice_control : ℕ
  pub support_thread : ℕ
  pub intra_procedural : ℕ
  pub inter_procedural : ℕ
  pub entry_only : ℕ

abbrev pub initial_flags : Flags
initial_flags = record {
  show_help = 0;
  skip_check = 0;
  enable_pta = 1;
  enable_control = 0;
  slice_control = 0;
  support_thread = 0;
  intra_procedural = 0;
  inter_procedural = 1;
  entry_only = 0;
}

abbrev pub cleared : ReactorOptions
cleared = record {
  address_file = none;
  checkpoint_file = none;
  pmem_file = none;
  pmem_layout = none;
  pmem_library = none;
  hook_guid_file = none;
  reexecute_cmd = none;
  arckpt = false;
  batch_threshold = pos 0;
  version_num = pos 0;
  fault_instr = [];
  fault_loc = [];
  bc_file = [];
  dg_options = record {
    entry_only = false;
    enable_pta = false;
    enable_ctrl = false;
    slice_ctrl = false;
    support_thread = false;
    intra_procedural = false;
    inter_procedural = false;
  };
}

-- The rows of `long_options` that set a flag, in their order.
abbrev pub long_options : List (Flags → Flags)
long_options =
    (λ f. record f { show_help = 1 })
    ∷ (λ f. record f { skip_check = 1 })
    ∷ (λ f. record f { enable_pta = 1 })
    ∷ (λ f. record f { enable_pta = 0 })
    ∷ (λ f. record f { enable_control = 1 })
    ∷ (λ f. record f { enable_control = 0 })
    ∷ (λ f. record f { slice_control = 1 })
    ∷ (λ f. record f { support_thread = 1 })
    ∷ (λ f. record f { support_thread = 0 })
    ∷ (λ f. record f { intra_procedural = 1 })
    ∷ (λ f. record f { inter_procedural = 1 })
    ∷ (λ f. record f { entry_only = 1 })
    ∷ []

-- `getopt_long` returns a character with its argument, or 0 after it set the flag of a row.
pub data Received : Type 0 where
  character : ℕ → String → Received
  flag : ℕ → Received

unfoldable pub set_flag : ℕ → Flags → Flags
set_flag row f = elim (get_elem? long_options row) [ none ↦ f | some change ↦ change f ]

-- The variables of `parse_options`, and whether it went on.
pub record Parsing : Type 0 where
  pub goes_on : Bool
  pub options : ReactorOptions
  pub flags : Flags

abbrev pub with_version : ReactorOptions → Flags → ℤ × Bool → Parsing
with_version o f (version, valid) = record {
  goes_on = valid;
  options = record o { version_num = version };
  flags = f;
}

-- One round of the `switch`.
unfoldable pub handle_option : ℕ → String → ReactorOptions → Flags → Parsing
handle_option c optarg o f =
    let on : ReactorOptions → Parsing = λ o'. record { goes_on = true; options = o'; flags = f } in
    if c == 104
    then (record { goes_on = true; options = o; flags = record f { show_help = 1 } })
    else (if c == 112
        then on (record o { pmem_file = some optarg })
        else (if c == 116
            then on (record o { pmem_layout = some optarg })
            else (if c == 108
                then on (record o { pmem_library = some optarg })
                else (if c == 110
                    then with_version o f (parse_version optarg)
                    else (if c == 103
                        then on (record o { hook_guid_file = some optarg })
                        else (if c == 122
                            then on (record o { arckpt = true })
                            else (if c == 101
                                then on (record o { batch_threshold = read_int optarg })
                                else (if c == 97
                                    then on (record o { address_file = some optarg })
                                    else (if c == 114
                                        then on (record o { reexecute_cmd = some optarg })
                                        else (if c == 99
                                            then on (record o { fault_loc = optarg })
                                            else (if c == 105
                                                then on (record o { fault_instr = optarg })
                                                else (if c == 98
                                                    then on (record o { bc_file = optarg })
                                                    else (record {
                                                      goes_on = false;
                                                      options = o;
                                                      flags = f;
                                                    })))))))))))))

-- The `while` loop over what `getopt_long` returns before -1.
unfoldable pub handle_options : List Received → ReactorOptions → Flags → Parsing
handle_options [] o f = record { goes_on = true; options = o; flags = f }
handle_options (character c optarg ∷ rest) o f =
    let p = handle_option c optarg o f in
    let more = handle_options rest p.options p.flags in if p.goes_on then more else p
handle_options (flag row ∷ rest) o f = handle_options rest o (set_flag row f)

-- "libpmem" and "libpmemobj".
abbrev pub libpmem : String
libpmem = 108 ∷ 105 ∷ 98 ∷ 112 ∷ 109 ∷ 101 ∷ 109 ∷ []

abbrev pub libpmemobj : String
libpmemobj = 108 ∷ 105 ∷ 98 ∷ 112 ∷ 109 ∷ 101 ∷ 109 ∷ 111 ∷ 98 ∷ 106 ∷ []

abbrev pub is_null : Option String → Bool
is_null none = true
is_null (some s) = false

abbrev pub is_empty : String → Bool
is_empty [] = true
is_empty (c ∷ s) = false

-- Whether a test holds of a string that is not null.
abbrev pub holds : (String → Bool) → Option String → Bool
holds test none = false
holds test (some s) = test s

abbrev pub is_known : String → Bool
is_known library = str_equal library libpmem || str_equal library libpmemobj

abbrev pub is_located : String → Bool
is_located loc = let n = count_character 58 loc in not (ltb n 1 || ltb 2 n)

unfoldable pub check_options : (String → Bool) → ReactorOptions → Bool
unfolding str_equal count_character
check_options exists o =
    if is_null o.pmem_file
    then false
    else (if not (holds exists o.pmem_file)
        then false
        else (if is_null o.pmem_layout
            then false
            else (if is_null o.pmem_library
                then false
                else (if not (holds is_known o.pmem_library)
                    then false
                    else (if is_null o.hook_guid_file
                        then false
                        else (if not (ltb_ℤ (pos 0) o.version_num)
                            then false
                            else (if is_null o.reexecute_cmd
                                then false
                                else (if not (is_empty o.fault_loc) && not (is_located o.fault_loc)
                                    then false
                                    else (if is_empty o.bc_file then false else true)))))))))

abbrev pub not_zero : ℕ → Bool
not_zero n = not (n == 0)

abbrev pub dg_options_of : Flags → DgOptions
dg_options_of f = record {
  entry_only = not_zero f.entry_only;
  enable_pta = not_zero f.enable_pta;
  enable_ctrl = not_zero f.enable_control;
  slice_ctrl = not_zero f.slice_control;
  support_thread = not_zero f.support_thread;
  inter_procedural = not_zero f.inter_procedural;
  intra_procedural = not_zero f.intra_procedural;
}

abbrev pub or_default : Option String → Option String
or_default none = some libpmem
or_default (some s) = some s

-- `exit(0)` after the usage, or an answer with the options and flags as they are then.
pub data Parsed : Type 0 where
  exited : Parsed
  answered : Bool → ReactorOptions → Flags → Parsed

-- The options at the end of the loop, completed.
abbrev pub completed : Parsing → ReactorOptions
completed p = record p.options {
  dg_options = dg_options_of p.flags;
  pmem_library = or_default p.options.pmem_library;
}

-- What follows the loop.
unfoldable pub finish : (String → Bool) → Parsing → Parsed
finish exists p =
    if not p.goes_on
    then answered false p.options p.flags
    else (if not_zero p.flags.show_help
        then exited
        else (if not_zero p.flags.skip_check
            then answered true (completed p) p.flags
            else answered (check_options exists (completed p)) (completed p) p.flags))

unfoldable pub parse_options : (String → Bool) → List Received → Flags → Parsed
parse_options exists received f = finish exists (handle_options received cleared f)
