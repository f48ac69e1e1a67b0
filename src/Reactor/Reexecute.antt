-- ===== src/Reactor/Reexecute.antt =====
-- Reopening the pool and running the program again (`redo_pmem_addresses` and `re_execute` of
-- reactor/lib/rollback.c). `printf` is left out.
pub mod Redo
pub mod Outcome
use arthas.Prelude.{
  ℕ, zero, suc, ◌+◌, ◌%◌, ◌^◌, ℤ, pos, negsuc, Bool, true, false, ◌==◌, Option, none, some, List,
  [], ◌∷◌, map, pred_ℤ, is_negative, to_int, rounds, if◌then◌else◌, ◌>>=◌,
}
use arthas.Memory.{Bytes}
use arthas.Reactor.Types.{SingleData, SeqNode, Row, SeqLog}
use arthas.Reactor.Rollback.{seq_coarse_grain_reversion}
use arthas.Reactor.Platform.{
  Platform, State, Status, has_failed, Run, returned, undefined, unfinished, bind, defined,
}

-- A change of `list[0]`, ..., `list[n - 1]` in place.
unfoldable pub change_slots {ℓ} : {A : Type ℓ} → ℕ → (A → A) → List A → Option (List A)
change_slots zero f l = some l
change_slots (suc n) f [] = none
change_slots (suc n) f (x ∷ l) = do rest ← change_slots n f l; some (f x ∷ rest)

abbrev pub in_pool : ℕ → SingleData → SingleData
in_pool pop d = record d { sorted_pmem_address = (pop + d.offset) % 2 ^ 64 }

-- A change of every version of a chain.
abbrev pub change_all : (SingleData → SingleData) → Row → Row
change_all f = map (λ (n : SeqNode). record n { ordered_data = f n.ordered_data })

unfoldable pub update_addresses : ℕ → SeqLog → Option SeqLog
unfolding change_slots to_int
update_addresses pop s = do
  l ← change_slots (rounds (to_int s.size)) (change_all (in_pool pop)) s.list
  some (record s { list = l })

-- `#define COARSE_GRAIN_NAIVE 1` and the other two.
abbrev pub coarse_grain_naive : ℕ
coarse_grain_naive = 1

abbrev pub coarse_grain_sequence : ℕ
coarse_grain_sequence = 2

abbrev pub fine_grain : ℕ
fine_grain = 3

abbrev pub max_coarse_attempts : ℕ
max_coarse_attempts = 5

module _ (P : Platform) where
  open P use {World, run_command, run_kill_script, open_pool, close_pool}

  -- The mapping's address, 0 if the pool could not be opened.
  unfoldable pub redo_pmem_addresses : State World → Run (ℕ × State World)
  unfolding update_addresses
  redo_pmem_addresses st =
      let (pop, bytes, world) = open_pool st.world st.bytes in
      let st' = record st { bytes = bytes; world = world } in
      if pop == 0
      then returned (0, st')
      else bind (defined (update_addresses pop st.s_log))
          λ s. returned (pop, record st' { s_log = s })

  unfoldable pub command : State World → Bool × State World
  command st =
      let (status, bytes, world) = run_command st.world st.bytes in
      (has_failed status, record st { bytes = bytes; world = world })

  unfoldable pub close : ℕ → State World → State World
  close pop st =
      let (bytes, world) = close_pool pop st.world st.bytes in
      record st { bytes = bytes; world = world }

  -- A second try behind `./killScript` if the pool cannot be opened.
  unfoldable pub reopen : State World → Run (ℕ × State World)
  unfolding redo_pmem_addresses
  reopen st = bind (redo_pmem_addresses st) λ (pop, st').
      if pop == 0
      then (let (bytes, world) = run_kill_script st'.world st'.bytes in
          redo_pmem_addresses (record st' { bytes = bytes; world = world }))
      else returned (pop, st')

  -- The rest of `re_execute` behind a failed run; `again` is its recursive call.
  unfoldable pub retry :
      SingleData
      → (ℤ → State World → Run (ℤ × State World))
      → ℕ
      → ℤ
      → ℕ
      → State World
      → Run (ℤ × State World)
  unfolding reopen close seq_coarse_grain_reversion
  retry uninit again reversion_type seq_num old_pop st = bind (reopen st) λ (pop, st').
      if reversion_type == coarse_grain_naive
      then bind (again (pred_ℤ seq_num) (close pop st')) (λ (_, st''). returned (pos 1, st''))
      else if reversion_type == coarse_grain_sequence
      then (if is_negative seq_num
          then returned (negsuc 0, st')
          else bind
              (defined (seq_coarse_grain_reversion uninit seq_num pop old_pop st'.s_log st'.bytes))
              λ bytes.
                bind (again (pred_ℤ seq_num) (close pop (record st' { bytes = bytes })))
                  (λ (_, st''). returned (pos 1, st'')))
      else returned (negsuc 0, close pop st')

  -- What the recursive call returns is dropped: the caller gets 1 from every round but the last.
  unfoldable pub re_execute : ℕ → SingleData → ℕ → ℤ → ℕ → State World → Run (ℤ × State World)
  unfolding command retry
  re_execute zero uninit reversion_type seq_num old_pop st = unfinished
  re_execute (suc fuel) uninit reversion_type seq_num old_pop st =
      let again = λ (k : ℤ) (s : State World). re_execute fuel uninit reversion_type k old_pop s in
      let (failed, st') = command st in
      if st'.coarse_grained_tries == max_coarse_attempts
      then returned (negsuc 0, st')
      else if failed
      then retry uninit again reversion_type seq_num old_pop st'
      else returned (pos 1, st')
