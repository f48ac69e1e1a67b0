-- ===== src/Reactor/Logs.antt =====
-- The tables that `react` starts with (`seq_log_creation`, `tx_log_creation` of
-- reactor/lib/core.cpp). Printing is left out.
pub mod Creation
use arthas.Prelude.{ℕ, ◌*◌, Option, some, List, [], replicate, ◌>>=◌}
use arthas.Memory.{Heap}
use arthas.Reactor.Types.{SingleData, CheckpointLog, Row, SeqLog, TxNode, TxLog}
use arthas.Reactor.Order.{Ordering, TxOrdering, order_by_sequence_num, order_by_tx_id}

-- `#define LOG_SIZE 16000010`
unfoldable pub log_size : ℕ
log_size = 16000010

-- `malloc`, and `NULL` in every slot.
unfoldable pub new_slots {ℓ} : {A : Type ℓ} → ℕ → List (List A)
new_slots n = replicate n []

-- The table of versions, how many there are, the table of those that were collected, and the heap.
-- `malloc(sizeof(struct seq_node) * total)` is room for 18 pointers a version on a 64-bit machine.
-- Only the first `total` slots are set to `NULL`; the chains of the others are never walked.
unfoldable pub seq_log_creation :
    SingleData → CheckpointLog → Heap → Option (SeqLog × ℕ × SeqLog × Heap)
unfolding order_by_sequence_num log_size new_slots
seq_log_creation uninit c heap = do
  let s_log : SeqLog = record { size = log_size; list = new_slots log_size }
  o ←
      order_by_sequence_num c
        (record { ordered_data = uninit; heap = heap; table = s_log; total_size = 0 })
  let r_log : SeqLog = record { size = o.total_size; list = new_slots (18 * o.total_size) }
  some (o.table, o.total_size, r_log, o.heap)

unfoldable pub tx_log_creation : SingleData → CheckpointLog → Heap → Option (TxLog × Heap)
unfolding order_by_tx_id log_size new_slots
tx_log_creation uninit c heap = do
  o ← order_by_tx_id c (record {
    ordered_data = uninit;
    heap = heap;
    table = record { size = log_size; list = new_slots log_size };
  })
  some (o.table, o.heap)
