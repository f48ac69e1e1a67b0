-- ===== src/Reactor/Reexecute/Outcome.antt =====
-- How `re_execute` (reactor/lib/rollback.c) ends.
use arthas.Prelude.{
  ℕ, zero, suc, ◌≡◌, ◌≢◌, refl, ℤ, pos, negsuc, true, false, ◌==◌, Option, none, some, arith,
  if◌then◌else◌, ◌∙◌, ap, Bool-cases, Option-cases, inl, inr, sym, some_inj, pred_ℤ,
}
use mathlib.Core.Option
use arthas.Memory.{Bytes}
use arthas.Reactor.Types.{SingleData, SeqLog}
use arthas.Reactor.SeqLog.Table.{IsSized, view}
use arthas.Reactor.Platform.{Platform, State, has_failed, returned, unfinished}
use arthas.Reactor.Reexecute.{
  in_pool, redo_pmem_addresses, command, close, reopen, retry, re_execute, fine_grain,
  coarse_grain_naive, max_coarse_attempts,
}
use arthas.Reactor.Reexecute.Redo.{IsMoved, update_addresses-IsMoved}

abbrev pub placed_at : ℕ → SingleData → SingleData
placed_at a d = record d { sorted_pmem_address = a }

-- The two tables have the same keys, and the same versions under them but for the addresses in the
-- mapping of the pool.
abbrev pub SameVersions : SeqLog → SeqLog → Type 0
SameVersions s s' = (k : ℕ) → (a : ℕ) × (view s' k ≡ Option.map (placed_at a) (view s k))

-- Nothing but the memory, the outside and the mapped addresses changed.
pub record Quiet {W : Type 0} (st st' : State W) : Type 0 where
  pub sized : IsSized st'.s_log
  pub same : SameVersions st.s_log st'.s_log
  pub tries : st'.coarse_grained_tries ≡ st.coarse_grained_tries
  pub success : st'.binary_success ≡ st.binary_success
  pub count : st'.binary_reversion_count ≡ st.binary_reversion_count
  pub items : st'.binary_reverted_items ≡ st.binary_reverted_items
  pub total : st'.total_reexecutions ≡ st.total_reexecutions
  pub reverted : st'.total_reverted_items ≡ st.total_reverted_items

SameVersions-refl : (s : SeqLog) → SameVersions s s
SameVersions-refl s k = elim (Option-cases (view s k)) [
  | inl e ↦ (0, rw e refl)
  | inr (d, e) ↦ (d.sorted_pmem_address, rw e refl)
]

pub SameVersions-trans : (s t u : SeqLog) → SameVersions s t → SameVersions t u → SameVersions s u
SameVersions-trans s t u first second k =
    let (a, e) = first k in
    let (b, f) = second k in
    (b, f ∙ ap (Option.map (placed_at b)) e ∙ placed_at-placed_at (view s k) a b)
  where
    placed_at-placed_at :
        (o : Option SingleData) (x y : ℕ)
        → Option.map (placed_at y) (Option.map (placed_at x) o) ≡ Option.map (placed_at y) o
    placed_at-placed_at none x y = refl
    placed_at-placed_at (some d) x y = refl

IsMoved-SameVersions : (pop : ℕ) (s s' : SeqLog) → IsMoved pop s s' → SameVersions s s'
IsMoved-SameVersions pop s s' m k = elim (Option-cases (view s k)) [
  | inl e ↦ (0, m.reads k ∙ rw e refl)
  | inr (d, e) ↦ ((in_pool pop d).sorted_pmem_address, m.reads k ∙ rw e refl)
]

-- A version of the second table is one of the first.
pub SameVersions-before :
    (s s' : SeqLog) (k : ℕ) (d' : SingleData)
    → SameVersions s s'
    → view s' k ≡ some d'
    → (d : SingleData) × (a : ℕ) × (view s k ≡ some d) × (d' ≡ placed_at a d)
SameVersions-before s s' k d' same e' =
    let (a, f) = same k in
    elim (Option-cases (view s k)) [
      | inl e ↦ let h : none ≡ some d' = sym (f ∙ rw e refl) ∙ e' in cc
      | inr (d, e) ↦ (d, a, e, sym (some_inj (sym (f ∙ rw e refl) ∙ e')))
    ]

module _ {W : Type 0} where
  -- A state with the same table and counters.
  pub Quiet-outside :
      (st : State W) (bytes : Bytes) (world : W)
      → IsSized st.s_log
      → Quiet st (record st { bytes = bytes; world = world })
  Quiet-outside st bytes world sized = record {
    sized = sized;
    same = SameVersions-refl st.s_log;
    tries = refl;
    success = refl;
    count = refl;
    items = refl;
    total = refl;
    reverted = refl;
  }

  pub Quiet-trans : (a b c : State W) → Quiet a b → Quiet b c → Quiet a c
  Quiet-trans a b c p q = record {
    sized = q.sized;
    same = SameVersions-trans a.s_log b.s_log c.s_log p.same q.same;
    tries = q.tries ∙ p.tries;
    success = q.success ∙ p.success;
    count = q.count ∙ p.count;
    items = q.items ∙ p.items;
    total = q.total ∙ p.total;
    reverted = q.reverted ∙ p.reverted;
  }

module _ (P : Platform) where
  open P use {World, run_command, run_kill_script, open_pool, close_pool}

  -- Whether the pool opens or not, its versions are kept.
  pub redo-Quiet :
      (st : State World)
      → IsSized st.s_log
      → (pop : ℕ) × (st' : State World) × (redo_pmem_addresses P st ≡ returned (pop, st'))
        × Quiet st st'
        × (st'.bytes ≡ (open_pool st.world st.bytes).1)
        × (st'.world ≡ (open_pool st.world st.bytes).2)
  unfolding redo_pmem_addresses
  redo-Quiet st sized =
      let (pop, bytes, world) = open_pool st.world st.bytes in
      let st1 = record st { bytes = bytes; world = world } in
      let (s, moved_eq, moved) = update_addresses-IsMoved pop st.s_log sized in
      elim (Bool-cases (pop == 0)) [
        | inl e ↦ (0, st1, rw e, Quiet-outside st bytes world sized, refl, refl)
        | inr e ↦ (
          pop,
          record st1 { s_log = s },
          rw (e, moved_eq),
          record {
            sized = moved.sized;
            same = IsMoved-SameVersions pop st.s_log s moved;
            tries = refl;
            success = refl;
            count = refl;
            items = refl;
            total = refl;
            reverted = refl;
          },
          refl,
          refl,
        )
      ]

  pub command-Quiet : (st : State World) → IsSized st.s_log → Quiet st (command P st).1
  unfolding command
  command-Quiet st sized =
      let (status, bytes, world) = run_command st.world st.bytes in
      Quiet-outside st bytes world sized

  pub close-Quiet : (pop : ℕ) (st : State World) → IsSized st.s_log → Quiet st (close P pop st)
  unfolding close
  close-Quiet pop st sized =
      let (bytes, world) = close_pool pop st.world st.bytes in Quiet-outside st bytes world sized

  pub reopen-Quiet :
      (st : State World)
      → IsSized st.s_log
      → (pop : ℕ) × (st' : State World) × (reopen P st ≡ returned (pop, st')) × Quiet st st'
  unfolding reopen
  reopen-Quiet st sized =
      let (pop, st1, opened, quiet, _, _) = redo-Quiet st sized in
      elim (Bool-cases (pop == 0)) [
        | inl e ↦
            let (bytes, world) = run_kill_script st1.world st1.bytes in
            let st2 = record st1 { bytes = bytes; world = world } in
            let quiet2 = Quiet-outside st1 bytes world quiet.sized in
            let (pop', st3, again, quiet3, _, _) = redo-Quiet st2 quiet2.sized in
            (
              pop',
              st3,
              rw (opened, e) again,
              Quiet-trans st st2 st3 (Quiet-trans st st1 st2 quiet quiet2) quiet3,
            )
        | inr e ↦ (pop, st1, rw (opened, e), quiet)
      ]

  -- On a table in shape (`IsSized`), and with the attempts not used up, `re_execute` in the
  -- fine-grained mode runs the command once. It returns -1 when the command exits with a code other
  -- than 0, and 1 otherwise, keeps the keys of the table and the versions under them except for
  -- their addresses in the mapping of the pool (`SameVersions`), and the counters, and without a
  -- failure leaves the state as the command left it.
  pub re_execute-fine :
      (fuel : ℕ) (uninit : SingleData) (seq_num : ℤ) (old_pop : ℕ) (st : State World)
      → IsSized st.s_log
      → st.coarse_grained_tries ≢ max_coarse_attempts
      → (st' : State World) × (re_execute P (suc fuel) uninit fine_grain seq_num old_pop st
          ≡ returned ((if (command P st).0 then negsuc 0 else pos 1), st'))
        × Quiet st st'
        × ((command P st).0 ≡ false → st' ≡ (command P st).1)
  unfolding re_execute retry
  re_execute-fine fuel uninit seq_num old_pop st sized fresh =
      let st1 = (command P st).1 in
      let quiet1 = command-Quiet st sized in
      let tries : st1.coarse_grained_tries == max_coarse_attempts ≡ false =
        ground (arith, quiet1.tries) in
      elim (Bool-cases (command P st).0) [
        | inl failed ↦
            let (pop, st2, opened, quiet2) = reopen-Quiet st1 quiet1.sized in
            (
              close P pop st2,
              rw (tries, failed) (rw opened),
              Quiet-trans st st1 (close P pop st2) quiet1
                  (Quiet-trans st1 st2 (close P pop st2) quiet2 (close-Quiet pop st2 quiet2.sized)),
              λ ok. cc,
            )
        | inr ok ↦ (st1, rw (tries, ok), quiet1, λ _. refl)
      ]

  -- When the command always fails, on a table in shape (`IsSized`) and with the attempts not used
  -- up, `re_execute` in the naive coarse-grained mode does not return within any fuel: nothing
  -- counts the attempts.
  pub re_execute-naive_endless :
      ((world : World) (bytes : Bytes) → has_failed (run_command world bytes).0 ≡ true)
      → (fuel : ℕ) (uninit : SingleData) (seq_num : ℤ) (old_pop : ℕ) (st : State World)
      → IsSized st.s_log
      → st.coarse_grained_tries ≢ max_coarse_attempts
      → re_execute P fuel uninit coarse_grain_naive seq_num old_pop st ≡ unfinished
  unfolding re_execute retry
  re_execute-naive_endless fails zero uninit seq_num old_pop st sized fresh = refl
  re_execute-naive_endless fails (suc fuel) uninit seq_num old_pop st sized fresh =
      let st1 = (command P st).1 in
      let quiet1 = command-Quiet st sized in
      let tries : st1.coarse_grained_tries == max_coarse_attempts ≡ false =
        ground (arith, quiet1.tries) in
      let (pop, st2, opened, quiet2) = reopen-Quiet st1 quiet1.sized in
      let st3 = close P pop st2 in
      let quiet3 = close-Quiet pop st2 quiet2.sized in
      rw (tries, command_fails fails st)
        (rw opened (
          rw (
            re_execute-naive_endless fails fuel uninit (pred_ℤ seq_num) old_pop st3 quiet3.sized
              (ground (arith, quiet1.tries, quiet2.tries, quiet3.tries)))))
    where
      command_fails :
          ((world : World) (bytes : Bytes) → has_failed (run_command world bytes).0 ≡ true)
          → (t : State World) → (command P t).0 ≡ true
      command_fails all t = all t.world t.bytes
