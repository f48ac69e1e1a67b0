-- ===== src/Examples/Addresses.antt =====
-- The addresses of two versions, by both ways.
use arthas.Prelude.{◌≡◌, ℕ, [], ◌∷◌, some}
use arthas.Reactor.Types.{SeqLog}
use arthas.Reactor.SeqLog.Table.{view}
use arthas.Reactor.Addresses.{
  AddrOffset, Multimap, offset_seq_creation, sort_creation, sort_by_sequence_number,
}
use arthas.Reactor.Addresses.Direct.{IsSorted}
use arthas.Reactor.Addresses.Multimap.{sort_creation-sort_by_sequence_number}
use arthas.Examples.Data.{two_versions, two_versions-IsSized, two_versions-IsPlaced}

abbrev at_200 : AddrOffset
at_200 = record { offset = 200; address = 0; pmem_address = 900 }

abbrev at_300 : AddrOffset
at_300 = record { offset = 300; address = 0; pmem_address = 950 }

sort_creation-sort_by_sequence_number_example :
    (m : Multimap) × (offset_seq_creation two_versions [] ≡ some m)
    × (s1 : SeqLog) × (sort_creation (at_200 ∷ at_300 ∷ []) m two_versions ≡ some s1)
    × (s2 : SeqLog) × (sort_by_sequence_number (at_200 ∷ at_300 ∷ []) two_versions ≡ some s2)
    × IsSorted (at_200 ∷ at_300 ∷ []) two_versions s1
    × ((k : ℕ) → view s1 k ≡ view s2 k)
sort_creation-sort_by_sequence_number_example =
    sort_creation-sort_by_sequence_number (at_200 ∷ at_300 ∷ []) two_versions two_versions-IsSized
      two_versions-IsPlaced
