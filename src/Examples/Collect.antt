-- ===== src/Examples/Collect.antt =====
-- The versions at the addresses of an instruction, on top of a collection that has another one.
use arthas.Prelude.{ℕ, ◌≡◌, ℤ, pos, not, ◌&&◌, some, List, [], ◌∷◌}
use arthas.Reactor.SeqLog.Scans.{mem}
use arthas.Reactor.Addresses.{Multimap}
use arthas.Reactor.Collect.{address_seq_nums, TraceItem, Collection, collect_instruction}
use arthas.Reactor.Collect.Numbers.{has, IsCollected}
use arthas.Reactor.Collect.Trace.{traced, at_address_of, collect_instruction-IsCollected}
use arthas.Examples.Data.{
  version_5, one_version, one_version-IsSized, two_versions, two_versions-IsSized,
  two_versions-IsPlaced,
}

abbrev with_5 : Collection
with_5 = record {
  many_address_seq = pos 5 ∷ [];
  slice_seq_numbers = pos 5 ∷ [];
  r_log = one_version;
}

-- Two items of the instruction 1, and one of another.
abbrev pub trace : List TraceItem
trace =
    record { instr = 1; addr = 200 }
    ∷ record { instr = 2; addr = 300 }
    ∷ record { instr = 1; addr = 100 }
    ∷ []

collect_instruction-IsCollected_example :
    (m : Multimap) × (address_seq_nums two_versions [] ≡ some m)
    × (new : List ℤ) × (c' : Collection) × (collect_instruction version_5 m 1 trace with_5
        ≡ some c')
    × IsCollected new with_5 c'
    × ((k : ℕ)
        → mem (pos k) new
          ≡ (not (has one_version k) && at_address_of two_versions k (traced 1 trace)))
collect_instruction-IsCollected_example =
    collect_instruction-IsCollected version_5 two_versions 1 trace with_5 two_versions-IsSized
      two_versions-IsPlaced one_version-IsSized
