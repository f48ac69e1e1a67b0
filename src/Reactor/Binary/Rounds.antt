-- ===== src/Reactor/Binary/Rounds.antt =====
-- One attempt of `binary_reversion` (reactor/lib/core.cpp) as a whole.
use arthas.Prelude.{
  ℕ, zero, suc, ◌+◌, ◌≤◌, ◌<◌, ◌≡◌, ◌≢◌, refl, ℤ, pos, negsuc, Bool, true, false, ltb, arith, List,
  ◌++◌, take, drop, replicate, All, length, take-append_length, if◌then◌else◌, ◌∙◌, ap, Bool-cases,
  inl, inr, sym, subst,
}
use arthas.Prelude.Sort.{All-qsort, length-qsort}
use arthas.Reactor.SeqLog.Table.{IsSized}
use arthas.Reactor.Decision.{reverse_cmpfunc, IsSeq}
use arthas.Reactor.Decision.Order.{sorted, decision_func-sorted}
use arthas.Reactor.Platform.{Platform, State, returned}
use arthas.Reactor.Reexecute.{command, close, max_coarse_attempts}
use arthas.Reactor.Reexecute.Outcome.{
  SameVersions, SameVersions-trans, Quiet, Quiet-outside, close-Quiet, re_execute-fine,
}
use arthas.Reactor.Binary.{Setup, attempt}
use arthas.Reactor.Binary.Attempt.{
  IsUsable, IsUsable-same, revert_array-defined, settled, IsCured, reopen_pool-Quiet,
}

length-replicate : (n : ℕ) (k : ℤ) → length (replicate n k) ≡ n
length-replicate zero k = refl
length-replicate (suc n) k = ap suc (length-replicate n k)

pub flag_ok : (failed : Bool) → (if failed then negsuc 0 else pos 1) ≡ pos 1 → failed ≡ false
flag_ok true h = cc
flag_ok false h = refl

module _ (P : Platform) (setup : Setup) where
  open P use {World}
  open setup use {uninit, c_log, is_libpmemobj, pool_address}

  -- The state `st'` after an attempt on a part, with the flag that the run returned.
  pub record Attempted (part : List ℤ) (st : State World) (flag : ℤ) (st' : State World)
      : Type 0 where
    pub usable : IsUsable c_log st'.s_log
    pub same : SameVersions st.s_log st'.s_log
    pub tries : st'.coarse_grained_tries ≡ st.coarse_grained_tries
    pub success : st'.binary_success ≡ st.binary_success
    pub count : st'.binary_reversion_count ≡ st.binary_reversion_count
    pub items : st'.binary_reverted_items ≡ length part
    pub total : st'.total_reexecutions ≡ st.total_reexecutions + 1
    pub cured : flag ≡ pos 1 → IsCured P setup st'

  -- The pool is closed before the run, if the library has one.
  abbrev closed : State World → State World
  closed st = if is_libpmemobj then close P st.pop st else st

  pub closed-Quiet : (st : State World) → IsSized st.s_log → Quiet st (closed st)
  closed-Quiet st sized = elim (Bool-cases is_libpmemobj) [
    | inl obj ↦ rw obj (close-Quiet P st.pop st sized)
    | inr plain ↦ rw plain (Quiet-outside st st.bytes st.world sized)
  ]

  -- For a part that is not empty and fits the array, of sequence numbers below 2^31, over a table
  -- in shape whose versions can all be rolled back (`IsUsable`), and with the attempts not used up,
  -- an attempt of the search ends, keeps the keys of the table and the versions under them except
  -- for their addresses in the mapping of the pool (`SameVersions`), and the counters except that
  -- it counts one more run and notes the length of the part, and its flag is 1 only if the memory
  -- and the outside are the ones that a run without failure left, with the pool opened again.
  pub attempt-Attempted :
      (slots : ℕ) (part : List ℤ) (flag : ℤ) (st : State World)
      → 0 < length part
      → length part ≤ slots
      → All IsSeq part
      → IsUsable c_log st.s_log
      → st.coarse_grained_tries ≢ max_coarse_attempts
      → (flag' : ℤ) × (st' : State World) × (attempt P setup slots part flag st
          ≡ returned (flag', st'))
        × Attempted part st flag' st'
  unfolding attempt
  attempt-Attempted slots part flag st some_part fits seqs usable fresh =
      let decided =
        decision_func-sorted part (replicate slots (pos 0)) (rw length-replicate fits) in
      let first : take (length part) (sorted part ++ drop (length part) (replicate slots (pos 0)))
          ≡ sorted part =
        subst
          (λ n. take n (sorted part ++ drop (length part) (replicate slots (pos 0))) ≡ sorted part)
          (length-qsort reverse_cmpfunc part)
          (take-append_length (sorted part) (drop (length part) (replicate slots (pos 0)))) in
      let (bytes, reverted) =
        revert_array-defined uninit c_log st.s_log usable (sorted part)
          (All-qsort reverse_cmpfunc IsSeq part seqs) st.bytes in
      let st1 = record st { bytes = bytes; binary_reverted_items = length part } in
      let quiet1 = closed-Quiet st1 usable.sized in
      let st2 = closed st1 in
      let (st3, ran, quiet2, kept) =
        re_execute-fine P 0 uninit (pos 0) pool_address st2 quiet1.sized
          (λ e. fresh (sym quiet1.tries ∙ e)) in
      let flag' : ℤ = if (command P st2).0 then negsuc 0 else pos 1 in
      let st4 = record st3 { total_reexecutions = st3.total_reexecutions + 1 } in
      let (st5, opened, quiet3, mem, out) = reopen_pool-Quiet P setup st4 quiet2.sized in
      let test : ltb 0 (length part) ≡ true = ground arith in
      let same : SameVersions st.s_log st5.s_log =
        SameVersions-trans st.s_log st3.s_log st5.s_log
          (SameVersions-trans st.s_log st2.s_log st3.s_log quiet1.same quiet2.same) quiet3.same in
      (
        flag',
        st5,
        rw (decided, first, reverted, test) (rw ran (rw opened)),
        record {
          usable = IsUsable-same c_log st.s_log st5.s_log usable quiet3.sized same;
          same = same;
          tries = quiet3.tries ∙ quiet2.tries ∙ quiet1.tries;
          success = quiet3.success ∙ quiet2.success ∙ quiet1.success;
          count = quiet3.count ∙ quiet2.count ∙ quiet1.count;
          items = quiet3.items ∙ quiet2.items ∙ quiet1.items;
          total = quiet3.total ∙ ap (λ n. n + 1) (quiet2.total ∙ quiet1.total);
          cured = λ one.
              let ok : (command P st2).0 ≡ false = flag_ok (command P st2).0 one in
              record {
                before = st2;
                succeeded = ok;
                memory =
                    subst (λ (t : State World). st5.bytes ≡ (settled P setup t.world t.bytes).0)
                      (kept ok) mem;
                outside =
                    subst (λ (t : State World). st5.world ≡ (settled P setup t.world t.bytes).1)
                      (kept ok) out;
              };
        },
      )
