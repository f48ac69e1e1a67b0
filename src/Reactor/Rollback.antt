-- ===== src/Reactor/Rollback.antt =====
-- Rolling versions back in the mapped pool, and undoing that (reactor/lib/rollback.c, and the undo
-- loop of reactor/lib/core.cpp). `uninit` is the structure on the stack that `lookup` leaves
-- uninitialised when a key is missing.
pub mod RoundTrip
pub mod Transaction
use arthas.Prelude.{
  ℕ, zero, suc, ◌+◌, ◌-◌, ◌%◌, ◌^◌, ℤ, pos, negsuc, Bool, true, false, ◌&&◌, ◌||◌, pred_ℤ,
  is_negative, eq_ℤ, ◌==◌, not, Option, none, some, List, [], ◌∷◌, to_int, rounds, if◌then◌else◌,
  ◌>>=◌,
}
use arthas.Memory.{Bytes, memcpy}
use arthas.Reactor.Types.{
  SingleData, CheckpointData, Node, CheckpointLog, TxNode, TxLog, SeqNode, SeqLog,
}
use arthas.Reactor.SeqLog.{at, lookup_undo_save, lookup}
use arthas.Reactor.TxLog.{tx_hash_code}

-- The version before the current one, negative if there is none.
abbrev pub rollback_version_of : SingleData → ℤ
rollback_version_of d = pred_ℤ d.version

unfoldable pub undo_by_sequence_number : SingleData → Bytes → Bytes
unfolding memcpy
undo_by_sequence_number d m =
    if is_negative (rollback_version_of d)
    then m
    else memcpy d.sorted_pmem_address d.content d.size m

unfoldable pub revert_by_sequence_number_checkpoint :
    CheckpointData → ℤ → SingleData → Bytes → Option Bytes
unfolding at memcpy
revert_by_sequence_number_checkpoint c rollback_version d m = do
  src ← at c.content rollback_version
  n ← at c.size rollback_version
  some (memcpy d.sorted_pmem_address src n m)

-- Saves the current bytes in the node's buffer, then writes the older version.
unfoldable pub revert_by_sequence_number : SingleData → ℤ → ℤ → SeqLog → Bytes → Option Bytes
unfolding lookup_undo_save at memcpy
revert_by_sequence_number d seq_num rollback_version s m = do
  saved ← lookup_undo_save s seq_num d.sorted_pmem_address d.size m
  src ← at d.old_data rollback_version
  n ← at d.old_size rollback_version
  some (memcpy d.sorted_pmem_address src n saved)

-- The address in the new mapping of the pool is computed in 64-bit arithmetic.
unfoldable pub revert_by_sequence_number_nonslice : ℕ → SingleData → ℤ → ℕ → Bytes → Option Bytes
unfolding at memcpy
revert_by_sequence_number_nonslice old_pop d rollback_version pop m =
    if is_negative rollback_version then some m else do
      src ← at d.old_data rollback_version
      n ← at d.old_size rollback_version
      some (memcpy ((d.address + 2 ^ 64 - old_pop + pop) % 2 ^ 64) src n m)

unfoldable pub checkpoint_hashcode : CheckpointLog → ℕ → Option ℤ
unfolding to_int
checkpoint_hashcode c offset = if c.size == 0 then none else some (to_int (offset % c.size))

unfoldable pub find_offset : ℕ → List Node → Option Node
find_offset old_off [] = none
find_offset old_off (n ∷ chain) = if n.offset == old_off then some n else find_offset old_off chain

unfoldable pub search_for_offset : ℕ → CheckpointLog → Option (Option Node)
unfolding checkpoint_hashcode at find_offset
search_for_offset old_off c = do
  p ← checkpoint_hashcode c old_off
  chain ← at c.list p
  some (find_offset old_off chain)

-- A version with nothing before it goes back to the newest version of the variable that the
-- target program had at this place before a reallocation, if there was one.
unfoldable pub revert_to_old_entry : SingleData → CheckpointLog → Bytes → Option Bytes
unfolding search_for_offset revert_by_sequence_number_checkpoint
revert_to_old_entry d c m = if d.old_checkpoint_entry == 0 then some m else do
  found ← search_for_offset d.old_checkpoint_entry c
  elim found [
    | none ↦ some m
    | some n ↦ revert_by_sequence_number_checkpoint n.c_data n.c_data.version d m
  ]

-- The body of the loop below for the version that was found.
unfoldable pub revert_found : SingleData → SeqLog → CheckpointLog → ℤ → Bytes → Option Bytes
unfolding revert_to_old_entry revert_by_sequence_number
revert_found d s c seq_num m =
    if eq_ℤ d.sequence_number (negsuc 0)
    then some m
    else if is_negative (rollback_version_of d)
    then revert_to_old_entry d c m
    else revert_by_sequence_number d seq_num (rollback_version_of d) s m

unfoldable pub revert_by_sequence_number_array :
    SingleData → SeqLog → List ℤ → CheckpointLog → Bytes → Option Bytes
revert_by_sequence_number_array uninit s [] c m = some m
revert_by_sequence_number_array uninit s (k ∷ ks) c m = do
  d ← lookup uninit s k
  m' ← revert_found d s c k m
  revert_by_sequence_number_array uninit s ks c m'

unfoldable pub undo_by_sequence_number_array : SingleData → SeqLog → List ℤ → Bytes → Option Bytes
undo_by_sequence_number_array uninit s [] m = some m
undo_by_sequence_number_array uninit s (k ∷ ks) m = do
  d ← lookup uninit s k
  undo_by_sequence_number_array uninit s ks (undo_by_sequence_number d m)

unfoldable pub seq_coarse_grain_reversion : SingleData → ℤ → ℕ → ℕ → SeqLog → Bytes → Option Bytes
unfolding lookup revert_by_sequence_number_nonslice
seq_coarse_grain_reversion uninit seq_num pop old_pop s m = do
  d ← lookup uninit s seq_num
  if is_negative (rollback_version_of d)
      then some m
      else revert_by_sequence_number_nonslice old_pop d (rollback_version_of d) pop m

-- Whether a version of a bucket is one of those that were asked for.
unfoldable pub is_asked : ℤ → List ℤ → Bool
is_asked seq_num [] = false
is_asked seq_num (k ∷ ks) = eq_ℤ seq_num k || is_asked seq_num ks

-- One node of the bucket: not reverted if it was asked for, or has nothing before it. The walk
-- does not look at the node's transaction.
unfoldable pub revert_tx_node : SingleData → SeqLog → List ℤ → SingleData → Bytes → Option Bytes
unfolding is_asked lookup revert_by_sequence_number
revert_tx_node uninit s ks d m =
    if not (eq_ℤ d.version (pos 0)) && not (is_asked d.sequence_number ks)
    then (do
      found ← lookup uninit s d.sequence_number
      revert_by_sequence_number found d.sequence_number (pred_ℤ d.version) s m)
    else some m

unfoldable pub revert_bucket : SingleData → SeqLog → List ℤ → List TxNode → Bytes → Option Bytes
revert_bucket uninit s ks [] m = some m
revert_bucket uninit s ks (n ∷ chain) m = do
  m' ← revert_tx_node uninit s ks n.ordered_data m
  revert_bucket uninit s ks chain m'

-- The loop over the numbers `ks` that are left, of all numbers `asked`.
unfoldable pub revert_transactions :
    SingleData → TxLog → SeqLog → List ℤ → List ℤ → Bytes → Option Bytes
revert_transactions uninit t s asked [] m = some m
revert_transactions uninit t s asked (k ∷ ks) m = do
  d ← lookup uninit s k
  p ← tx_hash_code t.size d.tx_id
  chain ← at t.list p
  m' ← revert_bucket uninit s asked chain m
  revert_transactions uninit t s asked ks m'

unfoldable pub revert_by_transaction : SingleData → TxLog → List ℤ → SeqLog → Bytes → Option Bytes
unfolding revert_transactions
revert_by_transaction uninit t ks s m = revert_transactions uninit t s ks ks m
