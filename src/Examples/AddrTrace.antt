-- ===== src/Examples/AddrTrace.antt =====
-- A trace with the address of a pool, one in the pool, and one below it.
use arthas.Prelude.{
  ℕ, ◌≡◌, refl, true, false, Option, none, some, List, [], ◌∷◌, map, arith, ◌==◌, sym,
  if◌then◌else◌,
}
use arthas.Reactor.Platform.{returned}
use arthas.Analyzer.Strings.{String}
use arthas.Analyzer.GuidMap.{GuidMap, GuidMapEntry}
use arthas.Analyzer.AddrTrace.{
  PmemAddrTraceItem, PmemAddrTrace, new_item, find_var, deserialize_trace,
}
use arthas.Analyzer.AddrTrace.Pools.{calculate_pool_offsets}
use arthas.Analyzer.AddrTrace.Pools.Places.{pools_of}
use arthas.Analyzer.AddrTrace.Pools.Last.{IsBuilt, HasOffsets, calculate_pool_offsets-HasOffsets}
use arthas.Analyzer.AddrTrace.Lines.{written, IsExtended, deserialize_trace-written}
use arthas.Analyzer.AddrTrace.Matching.{
  addresses_to_instructions, asked, IsSound, addresses_to_instructions-asked, find_key,
}
use arthas.Reactor.Offsets.{moved_from, last_pool_offsets, last_pool_offsets-moved}
use arthas.Examples.Texts.{entry_7, entry_12}

abbrev empty_trace : PmemAddrTrace
empty_trace = record { items = []; pool_addrs = []; guid_instr_map = []; failed_guids = [] }

abbrev variables : GuidMap
variables = entry_7 ∷ entry_12 ∷ []

empty_trace-IsBuilt : IsBuilt empty_trace
unfolding pools_of
empty_trace-IsBuilt = refl

abbrev tracked : List (ℕ × ℕ)
tracked = (4096, 7) ∷ (255, 12) ∷ []

deserialize_trace-written_example :
    (t' : PmemAddrTrace) × (deserialize_trace
        (some (written tracked))
        (some variables)
        empty_trace
        false
      ≡ returned (some (true, t')))
    × IsExtended (some variables) tracked empty_trace t'
deserialize_trace-written_example =
    deserialize_trace-written (some variables) tracked empty_trace false
      ((omega arith, omega arith, omega arith), ((omega arith, omega arith, omega arith), tt))
      empty_trace-IsBuilt

abbrev pool_item : PmemAddrTraceItem
pool_item = record new_item { addr = 4096; is_pool = true }

abbrev item_16 : PmemAddrTraceItem
item_16 = record new_item { addr = 4112; guid = 12; var = some entry_12 }

abbrev item_below : PmemAddrTraceItem
item_below = record new_item { addr = 100; guid = 7; var = some entry_7 }

abbrev pool_trace : PmemAddrTrace
pool_trace = record empty_trace {
  items = item_below ∷ pool_item ∷ item_16 ∷ item_below ∷ [];
  pool_addrs = record { pool_addr = 1; addresses = [] } ∷ [];
}

pool_trace-IsBuilt : IsBuilt pool_trace
unfolding pools_of
pool_trace-IsBuilt = refl

calculate_pool_offsets-HasOffsets_example :
    HasOffsets pool_trace (calculate_pool_offsets pool_trace).1
calculate_pool_offsets-HasOffsets_example =
    calculate_pool_offsets-HasOffsets pool_trace pool_trace-IsBuilt

last_pool_offsets-moved_example :
    last_pool_offsets 65536 (calculate_pool_offsets pool_trace).1
    ≡ some (some (map (moved_from 65536 4096) (item_16 ∷ [])))
last_pool_offsets-moved_example =
    last_pool_offsets-moved 65536 pool_trace (item_below ∷ []) pool_item item_16
      (item_16 ∷ item_below ∷ []) [] pool_trace-IsBuilt refl refl (refl, (refl, tt)) refl

-- An instruction is found for the line 3 only.
abbrev match_line_3 : String → ℕ → String → Option ℕ
match_line_3 file line text = if line == 3 then some 77 else none

abbrev matched_trace : PmemAddrTrace
matched_trace = record empty_trace { items = item_16 ∷ item_below ∷ item_16 ∷ [] }

abbrev vars : ℕ → Option GuidMapEntry
vars guid = find_var guid variables

empty_caches-IsSound : IsSound match_line_3 vars matched_trace
unfolding find_key
empty_caches-IsSound = record { known = λ g i h. cc; failed = λ g s h. cc }

vars-known : (vars 12 ≡ some entry_12) × (vars 7 ≡ some entry_7)
unfolding find_var
vars-known = (refl, refl)

addresses_to_instructions-asked_example :
    (t' : PmemAddrTrace) × (addresses_to_instructions match_line_3 true matched_trace ≡ (true, t'))
    × (t'.items ≡ map (asked match_line_3) matched_trace.items)
    × (t'.pool_addrs ≡ [])
    × IsSound match_line_3 vars t'
addresses_to_instructions-asked_example =
    addresses_to_instructions-asked match_line_3 vars matched_trace
      (sym vars-known.0, (sym vars-known.1, (sym vars-known.0, tt))) empty_caches-IsSound
