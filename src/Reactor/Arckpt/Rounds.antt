-- ===== src/Reactor/Arckpt/Rounds.antt =====
-- How the `arckpt` loop of `react` (reactor/lib/core.cpp) ends.
use arthas.Prelude.{
  ℕ, zero, suc, ◌+◌, ◌^◌, ◌≤◌, ◌<◌, ◌≡◌, ◌≢◌, refl, pos, negsuc, Bool, true, false, arith, [], ◌∷◌,
  if◌then◌else◌, ◌∙◌, sym, Bool-cases, inl, inr,
}
use arthas.Reactor.Platform.{Platform, State, returned}
use arthas.Reactor.Reexecute.{command, close, max_coarse_attempts}
use arthas.Reactor.Reexecute.Outcome.{Quiet-trans, redo-Quiet, re_execute-fine}
use arthas.Reactor.Binary.{Setup}
use arthas.Reactor.Binary.Attempt.{IsUsable, IsUsable-same, revert_array-defined}
use arthas.Reactor.Binary.Rounds.{closed-Quiet}
use arthas.Reactor.Arckpt.{arckpt_rounds, arckpt}

module _ (P : Platform) (setup : Setup) where
  open P use {World}
  open setup use {uninit, c_log, is_libpmemobj, pool_address}

  -- The end of `n` rounds at most.
  pub record IsOver (n : ℕ) (st : State World) (ok : Bool) (st' : State World) : Type 0 where
    pub usable : IsUsable c_log st'.s_log
    pub runs : st'.total_reexecutions ≤ st.total_reexecutions + n
    pub reverted :
        st'.total_reverted_items + st.total_reexecutions
        ≡ st.total_reverted_items + st'.total_reexecutions
    pub succeeded :
        ok ≡ true
        → (before : State World) × ((command P before).0 ≡ false) × (st' ≡ (command P before).1)
    pub exhausted : ok ≡ false → st'.total_reexecutions ≡ st.total_reexecutions + n

  pub arckpt_rounds-IsOver :
      (n : ℕ) (st : State World)
      → n < 2 ^ 31
      → IsUsable c_log st.s_log
      → st.coarse_grained_tries ≢ max_coarse_attempts
      → (ok : Bool) × (st' : State World) × (arckpt_rounds P setup n st ≡ returned (ok, st'))
        × IsOver n st ok st'
  unfolding arckpt_rounds
  arckpt_rounds-IsOver zero st small usable fresh = (
    false,
    st,
    refl,
    record {
      usable = usable;
      runs = omega arith;
      reverted = omega arith;
      succeeded = λ e. cc;
      exhausted = λ e. omega arith;
    },
  )
  arckpt_rounds-IsOver (suc n) st small usable fresh =
      let (bytes, ran) =
        revert_array-defined uninit c_log st.s_log usable (pos (suc n) ∷ [])
          ((suc n, refl, small), tt) st.bytes in
      let st1 = record st {
        bytes = bytes;
        total_reverted_items = st.total_reverted_items + 1;
        total_reexecutions = st.total_reexecutions + 1;
      } in
      let st2 = if is_libpmemobj then close P st1.pop st1 else st1 in
      let quiet1 = closed-Quiet P setup st1 usable.sized in
      let (st3, executed, quiet2, kept) =
        re_execute-fine P 0 uninit (negsuc 0) pool_address st2 quiet1.sized
          (λ e. fresh (sym quiet1.tries ∙ e)) in
      let quiet = Quiet-trans st1 st2 st3 quiet1 quiet2 in
      let usable3 = IsUsable-same c_log st.s_log st3.s_log usable quiet.sized quiet.same in
      elim (Bool-cases (command P st2).0) [
        | inr ok ↦ (
          true,
          st3,
          rw (ran, executed, ok),
          record {
            usable = usable3;
            runs = omega (arith, quiet.total);
            reverted = omega (arith, quiet.total, quiet.reverted);
            succeeded = λ _. (st2, ok, kept ok);
            exhausted = λ e. cc;
          },
        )
        | inl failed ↦
            let (pop, st4, opened, quiet3, _, _) = redo-Quiet P st3 quiet2.sized in
            let st5 = record st4 { pop = pop } in
            let all = Quiet-trans st1 st3 st4 quiet quiet3 in
            let usable5 = IsUsable-same c_log st.s_log st4.s_log usable all.sized all.same in
            let (result, st6, rest, over) =
              arckpt_rounds-IsOver n st5 (omega arith) usable5 (λ e. fresh (sym all.tries ∙ e)) in
            (
              result,
              st6,
              rw (ran, executed, failed) (rw opened rest),
              record {
                usable = over.usable;
                runs = omega (arith, over.runs, all.total);
                reverted = omega (arith, over.reverted, all.total, all.reverted);
                succeeded = over.succeeded;
                exhausted = λ e. omega (arith, over.exhausted e, all.total);
              },
            )
      ]

  -- Over a table in shape whose versions can all be rolled back (`IsUsable`), with the attempts not
  -- used up, and from a highest number that is not negative and below 2^31, the `arckpt` loop ends.
  -- It runs the program at most once for each number, and counts as many reverted items as runs; if
  -- it reports a success, the state is the one that a run without failure left, and otherwise it
  -- went through all numbers.
  pub arckpt-IsOver :
      (n : ℕ) (st : State World)
      → n < 2 ^ 31
      → IsUsable c_log st.s_log
      → st.coarse_grained_tries ≢ max_coarse_attempts
      → (ok : Bool) × (st' : State World) × (arckpt P setup (pos n) st ≡ returned (ok, st'))
        × IsOver n st ok st'
  unfolding arckpt
  arckpt-IsOver n st small usable fresh = arckpt_rounds-IsOver n st small usable fresh
