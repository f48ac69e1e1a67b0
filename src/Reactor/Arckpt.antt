-- ===== src/Reactor/Arckpt.antt =====
-- The mode that goes back one version at a time (the `arckpt` loop of `react`,
-- reactor/lib/core.cpp). Printing is left out.
pub mod Rounds
use arthas.Prelude.{
  ℕ, zero, suc, ◌+◌, ℤ, pos, negsuc, Bool, true, false, eq_ℤ, rounds, [], ◌∷◌, if◌then◌else◌,
}
use arthas.Reactor.Rollback.{revert_by_sequence_number_array}
use arthas.Reactor.Platform.{Platform, State, Run, returned, bind, defined}
use arthas.Reactor.Reexecute.{fine_grain, redo_pmem_addresses, close, re_execute}
use arthas.Reactor.Binary.{Setup}

module _ (P : Platform) (setup : Setup) where
  open P use {World}
  open setup use {uninit, c_log, is_libpmemobj, pool_address}

  -- From `cpkt_ind` down to 1; whether a run succeeded.
  unfoldable pub arckpt_rounds : ℕ → State World → Run (Bool × State World)
  unfolding revert_by_sequence_number_array close re_execute redo_pmem_addresses
  arckpt_rounds zero st = returned (false, st)
  arckpt_rounds (suc n) st =
      bind
        (defined
          (revert_by_sequence_number_array uninit st.s_log (pos (suc n) ∷ []) c_log st.bytes))
        λ bytes.
          let reverted = record st {
            bytes = bytes;
            total_reverted_items = st.total_reverted_items + 1;
            total_reexecutions = st.total_reexecutions + 1;
          } in
          let closed = if is_libpmemobj then close P reverted.pop reverted else reverted in
          bind (re_execute P 1 uninit fine_grain (negsuc 0) pool_address closed) λ (flag, st').
            if eq_ℤ flag (pos 1)
            then returned (true, st')
            else bind (redo_pmem_addresses P st')
                λ (pop, st''). arckpt_rounds n (record st'' { pop = pop })

  unfoldable pub arckpt : ℤ → State World → Run (Bool × State World)
  unfolding arckpt_rounds
  arckpt high_num st = arckpt_rounds (rounds high_num) st
