-- ===== src/Examples/Orders.antt =====
-- A checkpoint log with two versions of one variable, ordered by sequence number.
use arthas.Prelude.{ℕ, zero, suc, ◌+◌, ◌<◌, ◌≡◌, ◌≢◌, refl, pos, [], ◌∷◌, some, length, All, arith}
use arthas.Reactor.Types.{SeqLog, Node, CheckpointLog}
use arthas.Reactor.SeqLog.Table.{view}
use arthas.Reactor.SeqLog.Placed.{IsPlaced}
use arthas.Reactor.Order.{
  Ordering, checkpoint_nodes, order_by_sequence_num, TxOrdering, order_by_tx_id,
}
use arthas.Reactor.Order.Copies.{IsShaped, SourcesBelow, Extends}
use arthas.Reactor.Order.Sequence.{
  Job, jobs, key_of, IsJob, Distinct, IsReady, Stored, order_by_sequence_num-Stored,
}
use arthas.Reactor.Order.Transaction.{IsTxJob, IsReadyTx, Files, order_by_tx_id-Files}
use arthas.Memory.{Heap}
use arthas.Reactor.Logs.{seq_log_creation}
use arthas.Reactor.Logs.Creation.{IsCreated, seq_log_creation-IsCreated}
use arthas.Examples.Data.{version_5, empty_log, empty_log-IsSized}

abbrev node : Node
node = record {
  offset = 100;
  c_data = record {
    address = 300;
    offset = 100;
    content = 10 ∷ 20 ∷ 0 ∷ [];
    size = 4 ∷ 6 ∷ 0 ∷ [];
    version = pos 1;
    data_type = pos 0;
    sequence_number = pos 3 ∷ pos 8 ∷ pos 0 ∷ [];
    old_checkpoint_entry = 0;
    new_checkpoint_entry = 0;
    free_flag = pos 0;
    tx_id = pos 1 ∷ pos 2 ∷ pos 0 ∷ [];
  };
}

abbrev checkpoints : CheckpointLog
checkpoints = record { size = 2; variable_count = pos 1; list = [] ∷ (node ∷ []) ∷ [] }

abbrev initial : Ordering
initial = record {
  ordered_data = version_5;
  heap = record { bytes = λ a. a; brk = 1000 };
  table = empty_log;
  total_size = 0;
}

checkpoint_nodes_two : checkpoint_nodes checkpoints ≡ some (node ∷ [])
unfolding checkpoint_nodes
checkpoint_nodes_two = refl

node-IsShaped : IsShaped node.c_data
node-IsShaped = record {
  content_slots = refl;
  size_slots = refl;
  seq_slots = refl;
  tx_slots = refl;
}

abbrev first : Job
first = (node, 0)

abbrev second : Job
second = (node, 1)

below-two : (i : ℕ) → i < 2 → SourcesBelow node.c_data 2 1000
below-two i h zero l = omega arith
below-two i h (suc zero) l = omega arith
below-two i h (suc (suc j)) l = absurd (omega arith)

first-IsJob : IsJob 1000 first
first-IsJob = record {
  shaped = node-IsShaped;
  in_range = omega arith;
  below = λ i l. below-two 0 (omega arith) i (omega arith);
  counted = refl;
}

second-IsJob : IsJob 1000 second
second-IsJob = record {
  shaped = node-IsShaped;
  in_range = omega arith;
  below = below-two 0 (omega arith);
  counted = refl;
}

jobs_two : jobs (node ∷ []) ≡ first ∷ second ∷ []
unfolding jobs
jobs_two = refl

jobs_two_length : length (jobs (node ∷ [])) ≡ 2
jobs_two_length = rw jobs_two

jobs-IsJob : All (IsJob 1000) (jobs (node ∷ []))
jobs-IsJob = rw jobs_two (first-IsJob, (second-IsJob, tt))

jobs-Distinct : Distinct (jobs (node ∷ []))
jobs-Distinct = rw jobs_two (((λ e. omega (arith, e)), tt), (tt, tt))

order_by_sequence_num-Stored_example :
    (o' : Ordering) × (order_by_sequence_num checkpoints initial ≡ some o')
    × IsReady o'
    × Extends initial.heap o'.heap
    × (o'.total_size ≡ 0 + length (jobs (node ∷ [])))
    × (IsPlaced empty_log → IsPlaced o'.table)
    × ((k : ℕ) → All (λ w. key_of w ≢ k) (jobs (node ∷ [])) → view o'.table k ≡ view empty_log k)
    × All (Stored initial o') (jobs (node ∷ []))
order_by_sequence_num-Stored_example =
    order_by_sequence_num-Stored checkpoints (node ∷ []) initial checkpoint_nodes_two
      (record {
        sized = empty_log-IsSized;
        slots = record { data_slots = refl; size_slots = refl };
      })
      jobs-IsJob jobs-Distinct

abbrev initial_tx : TxOrdering
initial_tx = record {
  ordered_data = version_5;
  heap = record { bytes = λ a. a; brk = 1000 };
  table = record { size = 2; list = [] ∷ [] ∷ [] };
}

first-IsTxJob : IsTxJob 1000 first
first-IsTxJob = record {
  shaped = node-IsShaped;
  in_range = omega arith;
  below = λ i l. below-two 0 (omega arith) i (omega arith);
  numbered = refl;
}

second-IsTxJob : IsTxJob 1000 second
second-IsTxJob = record {
  shaped = node-IsShaped;
  in_range = omega arith;
  below = below-two 0 (omega arith);
  numbered = refl;
}

jobs-IsTxJob : All (IsTxJob 1000) (jobs (node ∷ []))
jobs-IsTxJob = rw jobs_two (first-IsTxJob, (second-IsTxJob, tt))

order_by_tx_id-Files_example :
    (o' : TxOrdering) × (order_by_tx_id checkpoints initial_tx ≡ some o')
    × IsReadyTx o'
    × Extends initial_tx.heap o'.heap
    × ((k : ℕ) → Files initial_tx o' (jobs (node ∷ [])) k)
order_by_tx_id-Files_example =
    order_by_tx_id-Files checkpoints (node ∷ []) initial_tx checkpoint_nodes_two
      (record {
        sized = record { not_empty = omega arith; fits_int = omega arith; slots = omega arith };
        slots = record { data_slots = refl; size_slots = refl };
      })
      jobs-IsTxJob

seq_log_creation-IsCreated_example :
    (s_log : SeqLog) × (total : ℕ) × (r_log : SeqLog) × (h' : Heap) × (seq_log_creation version_5
        checkpoints initial.heap
      ≡ some (s_log, total, r_log, h'))
    × IsCreated (node ∷ []) initial.heap s_log total r_log h'
seq_log_creation-IsCreated_example =
    seq_log_creation-IsCreated version_5 checkpoints (node ∷ []) initial.heap checkpoint_nodes_two
      (record { data_slots = refl; size_slots = refl }) jobs-IsJob jobs-Distinct
      (omega (arith, jobs_two_length))
