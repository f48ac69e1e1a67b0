-- ===== src/Reactor/Binary/Search.antt =====
-- How `binary_reversion` (reactor/lib/core.cpp) ends.
use arthas.Prelude.{
  ℕ, zero, suc, ◌+◌, ◌-◌, ◌≤◌, ◌<◌, ◌≡◌, ℤ, pos, true, leb, sub_ℕ, arith, List, All, length, eq_ℤ,
  eq_ℤ_iff, ◌∙◌, Bool-cases, inl, inr, sym,
}
use arthas.Reactor.Decision.{IsSeq}
use arthas.Reactor.Platform.{Platform, State, returned}
use arthas.Reactor.Binary.{Setup, search_halves, binary_reversion}
use arthas.Reactor.Binary.Rounds.{attempt-Attempted}
use arthas.Reactor.Binary.Parts.{halves-IsPart}
use arthas.Reactor.Binary.Branches.{
  IsStart, IsEnd, Search, Works, IsCounted, on_success-Ends, on_failure-Ends,
}

module _ (P : Platform) (setup : Setup) where
  open P use {World}
  open setup use {uninit_flag, c_log}

  module _ (fuel : ℕ) (again : Search P setup) (works : Works P setup fuel again) where
    -- A round makes one attempt at least.
    search_halves-Ends :
        (ks : List ℤ) (st : State World)
        → 0 < length ks
        → All IsSeq ks
        → IsStart P setup (suc fuel) st
        → (r : ℤ) × (st' : State World) × (search_halves P setup again ks 0 (length ks - 1) st
            ≡ returned (r, st'))
          × IsEnd P setup st st'
          × (st.total_reexecutions + 1 ≤ st'.total_reexecutions)
    unfolding search_halves
    search_halves-Ends ks st h seqs start =
        let (left, right, halved, lpart, rpart) = halves-IsPart ks h seqs in
        let (flag, st1, ran, a) =
          attempt-Attempted P setup (length ks) right uninit_flag st rpart.some_part rpart.fits
            rpart.seqs start.usable start.fresh in
        let st2 = record st1 { binary_reversion_count = st1.binary_reversion_count + 1 } in
        let counted : IsCounted P setup fuel st2 = record {
          usable = a.usable;
          fresh = λ e. start.fresh (sym a.tries ∙ e);
          few = omega (arith, a.count, start.few);
          enough = omega (arith, a.count, start.enough);
        } in
        let finish = λ (e : State World) (end : IsEnd P setup st2 e).
          counted_end st st1 e a.tries a.count a.total a.success end in
        elim (Bool-cases (eq_ℤ flag (pos 1))) [
          | inl ok ↦
              let cured = a.cured ((eq_ℤ_iff flag (pos 1)).0 ok) in
              let (r, st3, ends, end) =
                on_success-Ends P setup fuel again works (length ks) right st2 rpart counted
                  (record {
                    before = cured.before;
                    succeeded = cured.succeeded;
                    memory = cured.memory;
                    outside = cured.outside;
                  }) in
              (
                r,
                st3,
                rw halved (rw ran (rw ok ends)),
                finish st3 end,
                omega (arith, a.total, end.runs_ge),
              )
          | inr bad ↦
              let (r, st3, ends, end) =
                on_failure-Ends P setup fuel again works (length ks) flag left right st2 lpart rpart
                  counted in
              (
                r,
                st3,
                rw halved (rw ran (rw bad ends)),
                finish st3 end,
                omega (arith, a.total, end.runs_ge),
              )
        ]
      where
        counted_end :
            (st st1 e : State World)
            → st1.coarse_grained_tries ≡ st.coarse_grained_tries
            → st1.binary_reversion_count ≡ st.binary_reversion_count
            → st1.total_reexecutions ≡ st.total_reexecutions + 1
            → st1.binary_success ≡ st.binary_success
            → IsEnd P setup
                (record st1 { binary_reversion_count = st1.binary_reversion_count + 1 })
                e
            → IsEnd P setup st e
        counted_end st st1 e tries count total success end = record {
          usable = end.usable;
          tries = end.tries ∙ tries;
          reset = end.reset;
          runs_ge = omega (arith, end.runs_ge);
          runs_le = omega (arith, end.runs_le);
          verdict = elim end.verdict [ inl s ↦ inl (s ∙ success) | inr cured ↦ inr cured ];
        }

  leb-zero : (n : ℕ) → leb 0 n ≡ true
  leb-zero n = ground arith

  last_index : (n : ℕ) → 0 < n → sub_ℕ n 1 ≡ pos (n - 1)
  last_index n h = ground arith

  -- From an array of sequence numbers below 2^31 that is not empty, over a table in shape whose
  -- versions can all be rolled back (`IsUsable`), with the attempts not used up, at most 2 rounds
  -- counted, and fuel for the rounds up to 3, `binary_reversion` returns, whatever the runs of the
  -- program answer. It runs the program once at least, and at most 4 times less one for each round
  -- counted before, and it counts its rounds from 0 again. It changes `binary_success` only to 1,
  -- and then the memory and the outside are the ones that a run without failure left, with the pool
  -- opened again.
  pub binary_reversion-IsEnd :
      (fuel : ℕ) (ks : List ℤ) (st : State World)
      → 0 < length ks
      → All IsSeq ks
      → IsStart P setup fuel st
      → (r : ℤ) × (st' : State World) × (binary_reversion P setup fuel ks 0 (sub_ℕ (length ks) 1) st
          ≡ returned (r, st'))
        × IsEnd P setup st st'
        × (st.total_reexecutions + 1 ≤ st'.total_reexecutions)
  unfolding binary_reversion
  binary_reversion-IsEnd zero ks st h seqs start = absurd (omega (arith, start.enough, start.few))
  binary_reversion-IsEnd (suc fuel) ks st h seqs start =
      let works : Works P setup fuel (binary_reversion P setup fuel) = λ js s h' seqs' start'.
        (let (r, st', ran, end, _) = binary_reversion-IsEnd fuel js s h' seqs' start' in
          (r, st', ran, end)) in
      rw (last_index (length ks) h, leb-zero (length ks - 1))
        (search_halves-Ends fuel (binary_reversion P setup fuel) works ks st h seqs start)
