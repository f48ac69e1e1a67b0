-- ===== src/Reactor/Binary.antt =====
-- The search for a small set of reversions that cures the failure (`binary_reversion` of
-- reactor/lib/core.cpp). Vectors are lists; `printf`, `cout` and `free` are left out.
pub mod Attempt
pub mod Rounds
pub mod Parts
pub mod Branches
pub mod Search
use arthas.Prelude.{
  ℕ, zero, suc, ◌+◌, ◌-◌, ◌/◌, ℤ, pos, negsuc, Bool, true, false, ◌&&◌, ◌||◌, ◌==◌, ltb, leb, eq_ℤ,
  sub_ℕ, Option, none, some, List, [], ◌∷◌, take, drop, replicate, length, if◌then◌else◌, ◌>>=◌,
}
use arthas.Memory.{Bytes}
use arthas.Reactor.Types.{SingleData, CheckpointLog, SeqLog}
use arthas.Reactor.Rollback.{revert_by_sequence_number_array, undo_by_sequence_number_array}
use arthas.Reactor.Decision.{decision_func_sequence_array}
use arthas.Reactor.Platform.{Platform, State, Run, returned, undefined, unfinished, bind, defined}
use arthas.Reactor.Reexecute.{fine_grain, redo_pmem_addresses, close, re_execute}

-- The two parts around `mid = l + (r - l) / 2`. A single element is its own right part.
unfoldable pub halves : List ℤ → ℕ → ℕ → Option (List ℤ × List ℤ)
halves seqs l r =
    let mid = l + (r - l) / 2 in
    let first_right = if mid == 0 && length seqs == 1 then mid else mid + 1 in
    if leb (mid + 1) (length seqs) then some (take (mid + 1) seqs, drop first_right seqs) else none

-- `#define BINARY_REVERSION_ATTEMPTS 2`
abbrev pub binary_reversion_attempts : ℕ
binary_reversion_attempts = 2

-- What does not change during a search: the checkpoint log, the library in use, the pool's old
-- address, and what uninitialised variables hold.
pub record Setup : Type 0 where
  pub uninit : SingleData
  pub uninit_flag : ℤ
  pub c_log : CheckpointLog
  pub is_libpmemobj : Bool
  pub pool_address : ℕ

module _ (P : Platform) (setup : Setup) where
  open P use {World}
  open setup use {uninit, uninit_flag, c_log, is_libpmemobj, pool_address}

  -- `*pop = redo_pmem_addresses(...)`
  unfoldable pub reopen_pool : State World → Run (State World)
  unfolding redo_pmem_addresses
  reopen_pool st =
      if is_libpmemobj
      then bind (redo_pmem_addresses P st) (λ (pop, st'). returned (record st' { pop = pop }))
      else returned st

  -- Reverts the part, newest first, and runs the program; the flag is what the run returns, and
  -- is left as it was when there is nothing to revert.
  unfoldable pub attempt : ℕ → List ℤ → ℤ → State World → Run (ℤ × State World)
  unfolding decision_func_sequence_array revert_by_sequence_number_array close re_execute
      reopen_pool
  attempt slots part flag st =
      bind (defined (decision_func_sequence_array part (replicate slots (pos 0)) 0))
        λ (decided, total).
          bind
            (defined
              (revert_by_sequence_number_array uninit st.s_log (take total decided) c_log st.bytes))
            λ bytes.
              let reverted = record st { bytes = bytes; binary_reverted_items = total } in
              let closed = if is_libpmemobj then close P reverted.pop reverted else reverted in
              bind
                (if ltb 0 total
                  then bind (re_execute P 1 uninit fine_grain (pos 0) pool_address closed)
                      (λ (r, st').
                        returned
                          (r, record st' { total_reexecutions = st'.total_reexecutions + 1 }))
                  else returned (flag, closed))
                λ (flag', st'). bind (reopen_pool st') λ st''. returned (flag', st'')

  unfoldable pub undo : List ℤ → State World → Run (State World)
  unfolding undo_by_sequence_number_array
  undo part st =
      bind (defined (undo_by_sequence_number_array uninit st.s_log part st.bytes))
        λ bytes. returned (record st { bytes = bytes })

  -- The branch of a run without failure.
  unfoldable pub on_success :
      (List ℤ → ℕ → ℤ → State World → Run (ℤ × State World))
      → List ℤ
      → State World
      → Run (ℤ × State World)
  unfolding undo
  on_success again right st =
      if ltb binary_reversion_attempts st.binary_reversion_count || length right == 1
      then returned (pos 0, record st { binary_reversion_count = 0; binary_success = pos 1 })
      else bind (undo right st) λ st'.
        bind (again right 0 (sub_ℕ (length right) 1) st') λ (_, st''). returned (negsuc 0, st'')

  -- The branch of a failed run.
  unfoldable pub on_failure :
      (List ℤ → ℕ → ℤ → State World → Run (ℤ × State World))
      → ℕ
      → ℤ
      → List ℤ
      → List ℤ
      → State World
      → Run (ℤ × State World)
  unfolding undo attempt
  on_failure again slots flag left right st = bind (undo right st) λ st'.
      if ltb binary_reversion_attempts st'.binary_reversion_count || length left == 1
      then bind (attempt slots left flag (record st' { binary_reversion_count = 0 }))
          (λ (flag', st'').
            returned
              (pos 1, if eq_ℤ flag' (pos 1) then record st'' { binary_success = pos 1 } else st''))
      else bind (again left 0 (sub_ℕ (length left) 1) st') λ (_, st''). returned (negsuc 0, st'')

  unfoldable pub search_halves :
      (List ℤ → ℕ → ℤ → State World → Run (ℤ × State World))
      → List ℤ
      → ℕ
      → ℕ
      → State World
      → Run (ℤ × State World)
  unfolding halves attempt on_success on_failure
  search_halves again seqs l r st = bind (defined (halves seqs l r)) λ (left, right).
      bind (attempt (length seqs) right uninit_flag st) λ (flag, st').
        let counted = record st' { binary_reversion_count = st'.binary_reversion_count + 1 } in
        if eq_ℤ flag (pos 1)
        then on_success again right counted
        else on_failure again (length seqs) flag left right counted

  unfoldable pub binary_reversion : ℕ → List ℤ → ℕ → ℤ → State World → Run (ℤ × State World)
  unfolding search_halves
  binary_reversion zero seqs l r st = unfinished
  binary_reversion (suc fuel) seqs l r st = elim r [
    | pos r' ↦
        if leb l r'
        then search_halves (binary_reversion fuel) seqs l r' st
        else returned (negsuc 0, st)
    | negsuc _ ↦ returned (negsuc 0, st)
  ]
