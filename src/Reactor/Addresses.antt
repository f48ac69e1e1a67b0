-- ===== src/Reactor/Addresses.antt =====
-- Where the versions of the table stand in the mapped pool: the loops of `sort_by_sequence_number`
-- (reactor/lib/rollback.c), and the way of reactor/lib/core.cpp through a multimap from offsets to
-- sequence numbers (`offset_seq_creation`, `sort_creation`).
pub mod Direct
pub mod Index
pub mod Multimap
use arthas.Prelude.{
  ℕ, ℤ, Option, none, some, List, [], ◌∷◌, map, ◌==◌, ltb, to_int, rounds, if◌then◌else◌, ◌>>=◌,
}
use arthas.Reactor.Types.{SingleData, SeqNode, Row, SeqLog}
use arthas.Reactor.SeqLog.{nodes, lookup_modify}
use arthas.Reactor.Reexecute.{change_slots, change_all}

-- One index of the arrays of `PmemAddrOffsetList`.
pub record AddrOffset : Type 0 where
  pub offset : ℕ
  pub address : ℕ
  pub pmem_address : ℕ

-- The effect of one index on a version.
abbrev pub place : AddrOffset → SingleData → SingleData
place a d = if d.offset == a.offset then record d { sorted_pmem_address = a.pmem_address } else d

-- The loop over `j` for one chain.
unfoldable pub sort_row : List AddrOffset → Row → Row
sort_row [] row = row
sort_row (a ∷ addrs) row = sort_row addrs (change_all (place a) row)

unfoldable pub sort_by_sequence_number : List AddrOffset → SeqLog → Option SeqLog
unfolding change_slots sort_row to_int
sort_by_sequence_number addrs s = do
  l ← change_slots (rounds (to_int s.size)) (sort_row addrs) s.list
  some (record s { list = l })

-- `std::multimap<uint64_t, int>`: the pairs by rising offset, equal offsets in the order of
-- insertion.
abbrev pub Multimap : Type 0
Multimap = List (ℕ × ℤ)

unfoldable pub mm_insert : ℕ → ℤ → Multimap → Multimap
mm_insert k v [] = (k, v) ∷ []
mm_insert k v ((j, w) ∷ m) = if ltb k j then (k, v) ∷ (j, w) ∷ m else (j, w) ∷ mm_insert k v m

-- The values between the iterators of `equal_range`.
unfoldable pub equal_range : ℕ → Multimap → List ℤ
equal_range k [] = []
equal_range k ((j, w) ∷ m) = let rest = equal_range k m in if j == k then w ∷ rest else rest

-- The insertion of all nodes, under the offset or the address of their versions.
unfoldable pub insert_by : (SingleData → ℕ) → Row → Multimap → Multimap
unfolding mm_insert
insert_by key [] m = m
insert_by key (n ∷ ns) m = insert_by key ns (mm_insert (key n.ordered_data) n.sequence_number m)

unfoldable pub offset_seq_creation : SeqLog → Multimap → Option Multimap
unfolding nodes insert_by
offset_seq_creation s m = do ns ← nodes s; some (insert_by (λ d. d.offset) ns m)

-- The loop over one range.
unfoldable pub modify_range : List ℤ → ℕ → SeqLog → Option SeqLog
modify_range [] addr s = some s
modify_range (k ∷ ks) addr s = do s' ← lookup_modify s k addr; modify_range ks addr s'

unfoldable pub sort_creation : List AddrOffset → Multimap → SeqLog → Option SeqLog
unfolding equal_range modify_range
sort_creation [] m s = some s
sort_creation (a ∷ addrs) m s = do
  s' ← modify_range (equal_range a.offset m) a.pmem_address s
  sort_creation addrs m s'
