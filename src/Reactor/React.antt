-- ===== src/Reactor/React.antt =====
-- The loops of `react` over the slices and their instructions (reactor/lib/core.cpp): collecting
-- sequence numbers, and reverting them when there are enough. Printing and `free` are left out.
pub mod Batch
pub mod Items
pub mod Loops
use arthas.Prelude.{
  ℕ, zero, suc, ◌+◌, ◌-◌, ℤ, pos, negsuc, pos_part, neg_part, pred_ℤ, ◌-ℤ◌, rounds, sub_ℕ, Bool,
  true, false, ◌&&◌, not, ltb, leb, ltb_ℤ, eq_ℤ, Option, none, some, List, [], ◌∷◌, take, replicate,
  length, if◌then◌else◌, ◌>>=◌,
}
use arthas.Prelude.Sort.{qsort}
use arthas.Reactor.Types.{SingleData, SeqLog}
use arthas.Reactor.SeqLog.{insert, rev_lookup}
use arthas.Reactor.Rollback.{revert_by_sequence_number_array}
use arthas.Reactor.Decision.{decision_func_sequence_array}
use arthas.Reactor.Platform.{Platform, State, Run, returned, undefined, bind, defined}
use arthas.Reactor.Reexecute.{fine_grain, redo_pmem_addresses, close, re_execute}
use arthas.Reactor.Binary.{Setup, binary_reversion}
use arthas.Reactor.Addresses.{Multimap}
use arthas.Reactor.Collect.{TraceItem, Collection, collect_instruction}

-- `#define BATCH_REEXECUTION 1` and `#define ROLLBACK_MODE 0`.
abbrev pub batch_reexecution : ℕ
batch_reexecution = 1

abbrev pub rollback_mode : Bool
rollback_mode = false

-- The variables of the loops; `machine` has the global ones, and the memory.
pub record Progress (World : Type 0) : Type 0 where
  pub machine : State World
  pub collection : Collection
  pub many_address_clear : Bool
  pub req_flag2 : ℤ
  pub high_num : ℤ

unfoldable pub smallest : ℤ → List ℤ → ℤ
smallest temp [] = temp
smallest temp (a ∷ arr) = smallest (if ltb_ℤ a temp then a else temp) arr

-- `arr[0]` of an empty array is not there.
unfoldable pub find_smallest_element : List ℤ → Option ℤ
unfolding smallest
find_smallest_element [] = none
find_smallest_element (a ∷ arr) = some (smallest a (a ∷ arr))

-- The numbers from `i` down, `n` of them, that were not reverted before, and the table of those
-- that were.
unfoldable pub rollback_numbers : SingleData → ℕ → ℤ → SeqLog → Option (List ℤ × SeqLog)
rollback_numbers empty_data zero i r_log = some ([], r_log)
rollback_numbers empty_data (suc n) i r_log = do
  s_num ← rev_lookup r_log i
  if eq_ℤ s_num (pos 1) then rollback_numbers empty_data n (pred_ℤ i) r_log else do
    r_log' ← insert r_log i empty_data
    (ks, r_log'') ← rollback_numbers empty_data n (pred_ℤ i) r_log'
    some (i ∷ ks, r_log'')

-- The order of `sort` with `<`.
abbrev pub less : ℤ → ℤ → ℤ
less a b = if ltb_ℤ b a then pos 1 else pos 0

module _ (P : Platform) (setup : Setup) (empty_data : SingleData) where
  open P use {World}
  open setup use {uninit, c_log, is_libpmemobj, pool_address}

  -- The `if(ROLLBACK_MODE)`: every number down to the lowest one decided is reverted too. The
  -- array for them has `s_log->size` entries.
  unfoldable pub roll_back : List ℤ → Progress World → Option (Progress World)
  unfolding find_smallest_element rollback_numbers revert_by_sequence_number_array
  roll_back decided p = do
    lowest ← find_smallest_element decided
    (ks, r_log) ←
        rollback_numbers empty_data (rounds (p.high_num -ℤ lowest)) (pred_ℤ p.high_num)
          p.collection.r_log
    if ltb p.machine.s_log.size (length ks) then none else do
      bytes ← revert_by_sequence_number_array uninit p.machine.s_log ks c_log p.machine.bytes
      some (record p {
        machine = record p.machine { bytes = bytes };
        collection = record p.collection { r_log = r_log };
        high_num = lowest;
      })

  -- `if (*decided_total > 0)`: a run of the program, and the pool opened again.
  unfoldable pub run_reverted : ℕ → Progress World → Run (Progress World)
  unfolding close re_execute redo_pmem_addresses
  run_reverted total p =
      let st = p.machine in
      let closed = if is_libpmemobj then close P st.pop st else st in
      bind (re_execute P 1 uninit fine_grain (negsuc 0) pool_address closed) λ (flag, st').
        bind
          (redo_pmem_addresses P (record st' { total_reexecutions = st'.total_reexecutions + 1 }))
          λ (pop, st''). returned (record p {
            machine = record st'' {
              pop = pop;
              total_reverted_items = st''.total_reverted_items + total;
            };
            req_flag2 = flag;
          })

  -- The reversion of the numbers collected for one instruction.
  unfoldable pub revert_collected : Progress World → Run (Bool × Progress World)
  unfolding decision_func_sequence_array revert_by_sequence_number_array roll_back run_reverted
  revert_collected p =
      let st = p.machine in
      bind
        (defined (
          decision_func_sequence_array p.collection.slice_seq_numbers
            (replicate st.s_log.size (pos 0)) 0))
        λ (decided, total).
          bind
            (defined
              (revert_by_sequence_number_array uninit st.s_log (take total decided) c_log st.bytes))
            λ bytes.
              let reverted = record p { machine = record st { bytes = bytes } } in
              bind
                (defined (
                  if rollback_mode then roll_back (take total decided) reverted else some reverted))
                λ p'.
                  bind (if ltb 0 total then run_reverted total p' else returned p')
                    λ p''. returned (eq_ℤ p''.req_flag2 (pos 1), p'')

  unfoldable pub slice_reversion : Progress World → Run (Bool × Progress World)
  slice_reversion p =
      let done = revert_collected p in
      if leb 1 (length p.collection.slice_seq_numbers)
        && ltb (length p.collection.many_address_seq) batch_reexecution
        && not p.many_address_clear
      then done
      else returned (false, p)

  -- The binary reversion of all numbers that wait.
  unfoldable pub search_batch : ℕ → Progress World → Run (Bool × Progress World)
  search_batch fuel p =
      let many = p.collection.many_address_seq in
      bind
        (binary_reversion P setup fuel (qsort less many) 0 (sub_ℕ (length many) 1)
          (record p.machine { binary_success = negsuc 0 }))
        λ (_, st).
          let counted = record st {
            total_reverted_items = st.total_reverted_items + st.binary_reverted_items;
          } in
          if eq_ℤ st.binary_success (pos 1)
          then returned (true, record p { machine = counted })
          else returned (
            false,
            record p {
              machine = counted;
              collection = record p.collection { many_address_seq = [] };
              many_address_clear = true;
            },
          )

  unfoldable pub batch_reversion : ℕ → Progress World → Run (Bool × Progress World)
  batch_reversion fuel p =
      let done = search_batch fuel p in
      if ltb batch_reexecution (length p.collection.many_address_seq)
      then done
      else returned (false, p)

  -- The end of the loop's body; `starting_seq_num` is -1.
  abbrev pub next_item : Progress World → Progress World
  next_item p = record p {
    collection = record p.collection { slice_seq_numbers = [] };
    many_address_clear = false;
  }

  -- The body of the loop over the instructions of a slice; true for `return 1`.
  unfoldable pub react_item :
      ℕ → Multimap → List TraceItem → ℕ → Progress World → Run (Bool × Progress World)
  react_item fuel m trace dep_inst p =
      bind (defined (collect_instruction empty_data m dep_inst trace p.collection)) λ c.
        bind (batch_reversion fuel (record p { collection = c })) λ (done, p').
          if done
          then returned (true, p')
          else bind (slice_reversion p') λ (done', p'').
            if done' then returned (true, p'') else returned (false, next_item p'')

  unfoldable pub react_slice :
      ℕ → Multimap → List TraceItem → List ℕ → Progress World → Run (Bool × Progress World)
  react_slice fuel m trace [] p = returned (false, p)
  react_slice fuel m trace (dep_inst ∷ slice) p =
      bind (react_item fuel m trace dep_inst p)
        λ (done, p'). if done then returned (true, p') else react_slice fuel m trace slice p'

  unfoldable pub react_slices :
      ℕ → Multimap → List TraceItem → List (List ℕ) → Progress World → Run (Bool × Progress World)
  react_slices fuel m trace [] p = returned (false, p)
  react_slices fuel m trace (slice ∷ slices) p =
      bind (react_slice fuel m trace slice p)
        λ (done, p'). if done then returned (true, p') else react_slices fuel m trace slices p'
