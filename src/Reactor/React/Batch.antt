-- ===== src/Reactor/React/Batch.antt =====
-- The reversion of the numbers that wait, in `react` (reactor/lib/core.cpp).
use arthas.Prelude.{
  ℕ, ◌+◌, ◌≤◌, ◌<◌, ◌≡◌, ◌≢◌, refl, pos, negsuc, Bool, true, false, sub_ℕ, eq_ℤ, eq_ℤ_iff, arith,
  [], All, length, ◌∙◌, sym, subst, Bool-cases, inl, inr,
}
use arthas.Prelude.Sort.{qsort, All-qsort, length-qsort}
use arthas.Reactor.Types.{SingleData}
use arthas.Reactor.Decision.{IsSeq}
use arthas.Reactor.Platform.{Platform, State, returned}
use arthas.Reactor.Reexecute.{max_coarse_attempts}
use arthas.Reactor.Binary.{Setup, binary_reversion}
use arthas.Reactor.Binary.Attempt.{IsUsable, IsCured}
use arthas.Reactor.Binary.Search.{binary_reversion-IsEnd}
use arthas.Reactor.React.{Progress, less, search_batch}

negsuc_not_pos : (negsuc 0 ≢ pos 1)
negsuc_not_pos e = cc

module _ (P : Platform) (setup : Setup) (empty_data : SingleData) where
  open P use {World}
  open setup use {c_log}

  -- The state of the machine between two searches.
  pub record IsReady (st : State World) : Type 0 where
    pub usable : IsUsable c_log st.s_log
    pub fresh : st.coarse_grained_tries ≢ max_coarse_attempts
    pub reset : st.binary_reversion_count ≡ 0

  pub record IsSearched (p : Progress World) (done : Bool) (p' : Progress World) : Type 0 where
    pub ready : IsReady p'.machine
    pub runs_ge : p.machine.total_reexecutions ≤ p'.machine.total_reexecutions
    pub runs_le : p'.machine.total_reexecutions ≤ p.machine.total_reexecutions + 4
    pub success : done ≡ true → (p'.machine.binary_success ≡ pos 1) × IsCured P setup p'.machine
    pub emptied :
        done ≡ false
        → (p'.collection ≡ record p.collection { many_address_seq = [] })
          × (p'.many_address_clear ≡ true)

  pub search_batch-IsSearched :
      (fuel : ℕ) (p : Progress World)
      → 3 ≤ fuel
      → 0 < length p.collection.many_address_seq
      → All IsSeq p.collection.many_address_seq
      → IsReady p.machine
      → (done : Bool) × (p' : Progress World) × (search_batch P setup empty_data fuel p
          ≡ returned (done, p'))
        × IsSearched p done p'
  unfolding search_batch
  search_batch-IsSearched fuel p enough some_there seqs ready =
      let many = p.collection.many_address_seq in
      let st0 = record p.machine { binary_success = negsuc 0 } in
      let l = length-qsort less many in
      let (r, st, ran, end, _) =
        binary_reversion-IsEnd P setup fuel (qsort less many) st0 (omega (arith, l))
          (All-qsort less IsSeq many seqs)
          (record {
            usable = ready.usable;
            fresh = ready.fresh;
            few = let z = ready.reset in omega (arith, z);
            enough = omega arith;
          }) in
      let counted = record st {
        total_reverted_items = st.total_reverted_items + st.binary_reverted_items;
      } in
      let ran' : binary_reversion P setup fuel (qsort less many) 0 (sub_ℕ (length many) 1) st0
          ≡ returned (r, st) =
        subst
          (λ n.
            binary_reversion P setup fuel (qsort less many) 0 (sub_ℕ n 1) st0 ≡ returned (r, st))
          l ran in
      let ready' : IsReady counted = record {
        usable = end.usable;
        fresh = λ e. ready.fresh (sym end.tries ∙ e);
        reset = end.reset;
      } in
      let le : st.total_reexecutions ≤ p.machine.total_reexecutions + 4 =
        let z = end.runs_le in omega (arith, z) in
      elim (Bool-cases (eq_ℤ st.binary_success (pos 1))) [
        | inl won ↦
            let one : st.binary_success ≡ pos 1 = (eq_ℤ_iff st.binary_success (pos 1)).0 won in
            let cured : IsCured P setup counted = elim end.verdict [
              | inl same ↦ absurd (negsuc_not_pos (sym same ∙ one))
              | inr (_, c) ↦ record {
                before = c.before;
                succeeded = c.succeeded;
                memory = c.memory;
                outside = c.outside;
              }
            ] in
            (
              true,
              record p { machine = counted },
              rw (ran', won),
              record {
                ready = ready';
                runs_ge = end.runs_ge;
                runs_le = le;
                success = λ _. (one, cured);
                emptied = λ e. cc;
              },
            )
        | inr lost ↦ (
          false,
          record p {
            machine = counted;
            collection = record p.collection { many_address_seq = [] };
            many_address_clear = true;
          },
          rw (ran', lost),
          record {
            ready = ready';
            runs_ge = end.runs_ge;
            runs_le = le;
            success = λ e. cc;
            emptied = λ _. (refl, refl);
          },
        )
      ]
