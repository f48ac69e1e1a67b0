-- ===== src/Examples/Undo.antt =====
-- Reversions of two versions, and their undo.
use arthas.Prelude.{
  ◌≡◌, refl, ℕ, ℤ, pos, List, [], ◌∷◌, ◌++◌, some, take, replicate, length, inl, inr, arith,
}
use mathlib.Core.List.{Perm}
use arthas.Memory.{Bytes}
use arthas.Reactor.Types.{SingleData, CheckpointLog, SeqLog, TxLog}
use arthas.Reactor.SeqLog.Table.{view}
use arthas.Reactor.Rollback.{
  revert_by_sequence_number_array, undo_by_sequence_number_array, is_asked, revert_by_transaction,
}
use arthas.Reactor.Rollback.Transaction.{
  in_buckets, others, numbers, IsFiled, revert_by_transaction-array,
}
use arthas.Reactor.Rollback.RoundTrip.{Item, IsRevertible, SameOutside, undo_leaves_tail}
use arthas.Reactor.Decision.{decision_func_sequence_array, IsDescending}
use arthas.Reactor.Decision.Order.{decision_func-IsDescending}
use arthas.Reactor.Decision.Undo.{decision-revert-undo}
use arthas.Examples.Data.{version_5, version_9, two_versions, two_versions-IsSized}

-- Each byte holds its address.
abbrev memory : Bytes
memory = λ a. a

abbrev no_checkpoints : CheckpointLog
no_checkpoints = record { size = 0; variable_count = pos 0; list = [] }

abbrev item_5 : Item
item_5 = record { key = 5; entry = version_5; older = 0; source = 2000; source_size = 4 }

abbrev item_9 : Item
item_9 = record { key = 9; entry = version_9; older = 1; source = 2200; source_size = 3 }

view_5 : view two_versions 5 ≡ some version_5
unfolding view
view_5 = refl

view_9 : view two_versions 9 ≡ some version_9
unfolding view
view_9 = refl

item_5-IsRevertible : IsRevertible two_versions item_5
item_5-IsRevertible = record {
  held = record { stored = view_5; tagged = refl; newer = refl; source_at = refl; size_at = refl };
  fits = omega arith;
  apart = inr (omega arith);
}

item_9-IsRevertible : IsRevertible two_versions item_9
item_9-IsRevertible = record {
  held = record { stored = view_9; tagged = refl; newer = refl; source_at = refl; size_at = refl };
  fits = omega arith;
  apart = inr (omega arith);
}

decision-revert-undo_example :
    (decided : List ℤ) × (total : ℕ) × (decision_func_sequence_array
        (pos 5 ∷ pos 9 ∷ [])
        (replicate 4 (pos 0))
        0
      ≡ some (decided, total))
    × (m1 : Bytes) × (revert_by_sequence_number_array version_5 two_versions
          (take total decided)
          no_checkpoints
          memory
        ≡ some m1)
    × (m2 : Bytes) × (undo_by_sequence_number_array version_5 two_versions (pos 5 ∷ pos 9 ∷ []) m1
        ≡ some m2)
    × SameOutside (item_9 ∷ item_5 ∷ []) m2 memory
decision-revert-undo_example =
    decision-revert-undo version_5 two_versions two_versions-IsSized no_checkpoints
      (item_9 ∷ item_5 ∷ []) (replicate 4 (pos 0)) (item_9-IsRevertible, (item_5-IsRevertible, tt))
      ((inr (omega arith), tt), (tt, tt)) ((5, refl, omega arith), ((9, refl, omega arith), tt))
      ((refl, tt), (tt, tt)) (omega arith) memory

-- An older version of six bytes, where the newer one has four.
abbrev shrunk : SingleData
shrunk = record version_5 { old_size = 6 ∷ 0 ∷ 0 ∷ [] }

abbrev shrunk_log : SeqLog
shrunk_log = record {
  size = 1;
  list = (record { sequence_number = pos 5; ordered_data = shrunk } ∷ []) ∷ replicate 92 [];
}

abbrev shrunk_item : Item
shrunk_item = record { key = 5; entry = shrunk; older = 0; source = 2000; source_size = 6 }

shrunk-view : view shrunk_log 5 ≡ some shrunk
unfolding view
shrunk-view = refl

undo_leaves_tail_example :
    (m1 : Bytes) × (revert_by_sequence_number_array version_5 shrunk_log
        (pos 5 ∷ [])
        no_checkpoints
        memory
      ≡ some m1)
    × (m2 : Bytes) × (undo_by_sequence_number_array version_5 shrunk_log (pos 5 ∷ []) m1 ≡ some m2)
    × (m2 505 ≡ 2005)
undo_leaves_tail_example =
    undo_leaves_tail version_5 shrunk_log
      (record {
        not_empty = omega arith;
        fits_int = omega arith;
        slots = omega arith;
        probed = omega arith;
      })
      shrunk_item
      (record {
        stored = shrunk-view;
        tagged = refl;
        newer = refl;
        source_at = refl;
        size_at = refl;
      })
      no_checkpoints memory 5 (omega arith) (omega arith) (inl (omega arith))

decision_func-IsDescending_example :
    (ks : List ℤ) × (decision_func_sequence_array
        (pos 9 ∷ pos 5 ∷ pos 7 ∷ [])
        (replicate 4 (pos 0))
        0
      ≡ some (ks ++ pos 0 ∷ [], length ks))
    × Perm ks (pos 9 ∷ pos 5 ∷ pos 7 ∷ [])
    × IsDescending ks
decision_func-IsDescending_example =
    decision_func-IsDescending (pos 9 ∷ pos 5 ∷ pos 7 ∷ []) (replicate 4 (pos 0))
      ((9, refl, omega arith), ((5, refl, omega arith), ((7, refl, omega arith), tt))) (omega arith)

-- A bucket with both versions.
abbrev both_versions : TxLog
both_versions = record {
  size = 1;
  list =
      (record { tx_id = pos 1; ordered_data = version_5 }
        ∷ record { tx_id = pos 1; ordered_data = version_9 }
        ∷ [])
      ∷ [];
}

both_in_bucket :
    in_buckets version_5 both_versions two_versions (pos 5 ∷ []) ≡ some (version_5 ∷ version_9 ∷ [])
unfolding in_buckets
both_in_bucket = refl

only_9 : others (pos 5 ∷ []) (version_5 ∷ version_9 ∷ []) ≡ version_9 ∷ []
unfolding others is_asked
only_9 = refl

version_9-IsFiled : IsFiled two_versions version_9
version_9-IsFiled = record {
  key = 9;
  older = 1;
  entry = version_9;
  tagged = refl;
  newer = refl;
  stored = view_9;
  entry_tagged = refl;
  entry_newer = refl;
}

revert_by_transaction-array_example :
    revert_by_transaction version_5 both_versions (pos 5 ∷ []) two_versions memory
    ≡ revert_by_sequence_number_array version_5 two_versions
        (numbers (others (pos 5 ∷ []) (version_5 ∷ version_9 ∷ [])))
        no_checkpoints
        memory
revert_by_transaction-array_example =
    revert_by_transaction-array version_5 two_versions two_versions-IsSized no_checkpoints
      both_versions (pos 5 ∷ []) (version_5 ∷ version_9 ∷ []) memory both_in_bucket
      (rw only_9 (version_9-IsFiled, tt))
