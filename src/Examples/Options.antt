-- ===== src/Examples/Options.antt =====
-- A complete command line, and a version number.
use arthas.Prelude.{◌≡◌, refl, true, pos, to_int, some, List, [], ◌∷◌, arith}
use arthas.Analyzer.Numbers.{show}
use arthas.Reactor.Options.{
  ReactorOptions, Received, character, flag, cleared, initial_flags, handle_option, handle_options,
  set_flag, check_options, finish, parse_options, answered, libpmem, dg_options_of,
}
use arthas.Reactor.Options.Integers.{parse_version}
use arthas.Reactor.Options.Complete.{IsComplete}
use arthas.Reactor.Options.Accepted.{HasInts, parse_options-IsAccepted}
use arthas.Reactor.Options.Given.{IsGiven, parse_options-IsGiven}
use arthas.Reactor.Options.Versions.{parse_version-show}

-- `-p f -n 3 -t l -g g -r x -b b -z 1 --entry-only`, with `-p e` before, and `enable_pta` turned off
-- and on again.
abbrev received : List Received
received =
    character 112 (101 ∷ [])
    ∷ character 112 (102 ∷ [])
    ∷ character 110 (51 ∷ [])
    ∷ character 116 (108 ∷ [])
    ∷ character 103 (103 ∷ [])
    ∷ character 114 (120 ∷ [])
    ∷ character 98 (98 ∷ [])
    ∷ character 122 (49 ∷ [])
    ∷ flag 3
    ∷ flag 2
    ∷ flag 11
    ∷ []

abbrev options : ReactorOptions
options = record cleared {
  pmem_file = some (102 ∷ []);
  version_num = pos 3;
  pmem_layout = some (108 ∷ []);
  pmem_library = some libpmem;
  hook_guid_file = some (103 ∷ []);
  reexecute_cmd = some (120 ∷ []);
  bc_file = 98 ∷ [];
  arckpt = true;
  dg_options = dg_options_of (record initial_flags { entry_only = 1 });
}

options_parsed :
    parse_options (λ f. true) received initial_flags
    ≡ answered true options (record initial_flags { entry_only = 1 })
unfolding parse_options handle_options handle_option set_flag finish check_options parse_version
options_parsed = refl

parse_options-IsAccepted_example : IsComplete (λ f. true) options × HasInts options
parse_options-IsAccepted_example =
    parse_options-IsAccepted (λ f. true) received options (record initial_flags { entry_only = 1 })
      options_parsed refl

parse_options-IsGiven_example : IsGiven received options
parse_options-IsGiven_example =
    parse_options-IsGiven (λ f. true) received options (record initial_flags { entry_only = 1 })
      options_parsed

-- 2^32 + 1 is taken for 1.
parse_version-show_example : parse_version (show 4294967297) ≡ (to_int 4294967297, true)
parse_version-show_example = parse_version-show 4294967297 (omega arith)
