-- ===== src/Reactor/Order.antt =====
-- From the checkpoint log to the tables by sequence number and by transaction
-- (`order_by_sequence_num` and `order_by_tx_id` of reactor/lib/checkpoint.c).
-- The structure `ordered_data` on the stack is reused in each round: what a round does not set
-- is left over from the round before.
pub mod Copies
pub mod Fill
pub mod Sequence
pub mod Transaction
use arthas.Prelude.{
  ℕ, zero, suc, ◌+◌, ℤ, pos, Option, none, some, List, [], ◌∷◌, to_int, rounds, get_elem?, set,
  length, ltb, if◌then◌else◌, ◌>>=◌,
}
use arthas.Memory.{Heap, fresh_copy}
use arthas.Reactor.Types.{SingleData, CheckpointData, Node, CheckpointLog, SeqLog, TxLog}
use arthas.Reactor.SeqLog.{insert, read_slots, concat}
use arthas.Reactor.TxLog.{tx_insert}

-- `a[i] = v` in an array of a structure.
unfoldable pub store? {ℓ} : {A : Type ℓ} → List A → ℕ → A → Option (List A)
store? xs i v = if ltb i (length xs) then some (set xs i v) else none

-- The loop over `k`: copies of all older versions.
unfoldable pub copy_old : CheckpointData → ℕ → ℕ → SingleData → Heap → Option (SingleData × Heap)
unfolding fresh_copy store?
copy_old c zero k d h = some (d, h)
copy_old c (suc n) k d h = do
  src ← get_elem? c.content k
  size ← get_elem? c.size k
  let block = fresh_copy src size h
  old_data ← store? d.old_data k block.0
  old_size ← store? d.old_size k size
  copy_old c n (k + 1) (record d { old_data = old_data; old_size = old_size }) block.1

-- The body of the loop over `j`, up to the insertion: `ordered_data` for the version `j`.
unfoldable pub fill : Node → ℕ → SingleData → Heap → Option (SingleData × Heap)
unfolding fresh_copy copy_old
fill n j d h = do
  seq_num ← get_elem? n.c_data.sequence_number j
  src ← get_elem? n.c_data.content j
  size ← get_elem? n.c_data.size j
  tx_id ← get_elem? n.c_data.tx_id j
  let block = fresh_copy src size h
  copy_old n.c_data j 0
      (record d {
        address = n.c_data.address;
        offset = n.offset;
        content = block.0;
        size = size;
        version = pos j;
        sequence_number = seq_num;
        old_checkpoint_entry = n.c_data.old_checkpoint_entry;
        tx_id = tx_id;
      })
      block.1

-- The variables of `order_by_sequence_num`.
pub record Ordering : Type 0 where
  pub ordered_data : SingleData
  pub heap : Heap
  pub table : SeqLog
  pub total_size : ℕ

unfoldable pub order_version : Node → ℕ → Ordering → Option Ordering
unfolding fill insert
order_version n j o = do
  filled ← fill n j o.ordered_data o.heap
  table ← insert o.table filled.0.sequence_number filled.0
  some (record {
    ordered_data = filled.0;
    heap = filled.1;
    table = table;
    total_size = o.total_size + 1;
  })

-- The versions `j`, `j + 1`, ... of a node, `count` in all.
unfoldable pub order_versions : Node → ℕ → ℕ → Ordering → Option Ordering
unfolding order_version
order_versions n zero j o = some o
order_versions n (suc count) j o = do o' ← order_version n j o; order_versions n count (j + 1) o'

-- `for (int j = 0; j <= version; j++)` runs so often.
abbrev pub version_count : Node → ℕ
version_count n = elim n.c_data.version [ pos v ↦ suc v | _ ↦ 0 ]

unfoldable pub order_chain : List Node → Ordering → Option Ordering
unfolding order_versions
order_chain [] o = some o
order_chain (n ∷ chain) o = do o' ← order_versions n (version_count n) 0 o; order_chain chain o'

unfoldable pub checkpoint_nodes : CheckpointLog → Option (List Node)
unfolding read_slots to_int concat
checkpoint_nodes c = do chains ← read_slots (rounds (to_int c.size)) c.list; some (concat chains)

unfoldable pub order_by_sequence_num : CheckpointLog → Ordering → Option Ordering
unfolding checkpoint_nodes order_chain
order_by_sequence_num c o = do ns ← checkpoint_nodes c; order_chain ns o

-- The same loops with the table by transaction.
pub record TxOrdering : Type 0 where
  pub ordered_data : SingleData
  pub heap : Heap
  pub table : TxLog

unfoldable pub order_tx_version : Node → ℕ → TxOrdering → Option TxOrdering
unfolding fill tx_insert
order_tx_version n j o = do
  filled ← fill n j o.ordered_data o.heap
  table ← tx_insert o.table filled.0.tx_id filled.0
  some (record { ordered_data = filled.0; heap = filled.1; table = table })

unfoldable pub order_tx_versions : Node → ℕ → ℕ → TxOrdering → Option TxOrdering
unfolding order_tx_version
order_tx_versions n zero j o = some o
order_tx_versions n (suc count) j o = do
  o' ← order_tx_version n j o
  order_tx_versions n count (j + 1) o'

unfoldable pub order_tx_chain : List Node → TxOrdering → Option TxOrdering
unfolding order_tx_versions
order_tx_chain [] o = some o
order_tx_chain (n ∷ chain) o = do
  o' ← order_tx_versions n (version_count n) 0 o
  order_tx_chain chain o'

unfoldable pub order_by_tx_id : CheckpointLog → TxOrdering → Option TxOrdering
unfolding checkpoint_nodes order_tx_chain
order_by_tx_id c o = do ns ← checkpoint_nodes c; order_tx_chain ns o
