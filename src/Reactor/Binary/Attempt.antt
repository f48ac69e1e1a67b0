-- ===== src/Reactor/Binary/Attempt.antt =====
-- Lemmas on the reversion, the undo and the reopening in one attempt of `binary_reversion`
-- (reactor/lib/core.cpp).
use arthas.Prelude.{
  ℕ, suc, ◌≡◌, refl, ℤ, pos, negsuc, true, false, Option, none, some, List, [], ◌∷◌, All, get_elem?,
  is_negative, eq_ℤ, if◌then◌else◌, Bool-cases, ◌⊎◌, inl, inr,
}
use arthas.Memory.{Bytes, memcpy}
use arthas.Reactor.Types.{SingleData, CheckpointLog, SeqLog}
use arthas.Reactor.SeqLog.{at}
use arthas.Reactor.SeqLog.Table.{IsSized, view, lookup-view, lookup_undo_save-view}
use arthas.Reactor.Rollback.{
  rollback_version_of, revert_found, revert_to_old_entry, revert_by_sequence_number_array,
  undo_by_sequence_number, undo_by_sequence_number_array,
}
use arthas.Reactor.Decision.{IsSeq}
use arthas.Reactor.Platform.{Platform, State, returned}
use arthas.Reactor.Reexecute.{command}
use arthas.Reactor.Reexecute.Outcome.{
  SameVersions, SameVersions-before, Quiet, Quiet-outside, redo-Quiet,
}
use arthas.Reactor.Binary.{Setup, reopen_pool}

-- The version can be rolled back: the one before it is in its arrays, or it is the first and going
-- to the entry before a reallocation is defined, wherever the pool is mapped.
abbrev pub IsRollable : CheckpointLog → SingleData → Type 0
IsRollable c d =
    ((v : ℕ) × (src : ℕ) × (n : ℕ) × (d.version ≡ pos (suc v))
      × (get_elem? d.old_data v ≡ some src)
      × (get_elem? d.old_size v ≡ some n))
    ⊎ ((is_negative (rollback_version_of d) ≡ true)
        × ((a : ℕ) (m : Bytes)
            → (m' : Bytes) × (revert_to_old_entry (record d { sorted_pmem_address = a }) c m
                ≡ some m')))

pub record IsUsable (c : CheckpointLog) (s : SeqLog) : Type 0 where
  pub sized : IsSized s
  pub rollable : (k : ℕ) (d : SingleData) → view s k ≡ some d → IsRollable c d

pub IsUsable-same :
    (c : CheckpointLog) (s s' : SeqLog)
    → IsUsable c s
    → IsSized s'
    → SameVersions s s'
    → IsUsable c s'
IsUsable-same c s s' u sized same = record {
  sized = sized;
  rollable = λ k d' e'.
      let (d, a, e, moved) = SameVersions-before s s' k d' same e' in rw moved (u.rollable k d e);
}

module _ (uninit : SingleData) (c : CheckpointLog) (s : SeqLog) (usable : IsUsable c s) where
  -- What `lookup` returns.
  abbrev or_missing : Option SingleData → SingleData
  or_missing o = elim o [ none ↦ record uninit { sequence_number = negsuc 0 } | some d ↦ d ]

  found-defined :
      (k : ℕ) (d : SingleData) (m : Bytes)
      → view s k ≡ some d
      → (m' : Bytes) × (revert_found d s c (pos k) m ≡ some m')
  unfolding revert_found at
  found-defined k d m e = elim (Bool-cases (eq_ℤ d.sequence_number (negsuc 0))) [
    | inl missing ↦ (m, rw missing)
    | inr present ↦ rw present (elim (usable.rollable k d e) [
      | inl (v, src, n, newer, source_at, size_at) ↦ (
        memcpy d.sorted_pmem_address src n (memcpy d.content d.sorted_pmem_address d.size m),
        rw newer (
            rw (lookup_undo_save-view s usable.sized k d.sorted_pmem_address d.size m, e)
              (rw (source_at, size_at))),
      )
      | inr (first, old) ↦ let (m', ran) = old d.sorted_pmem_address m in (m', rw first ran)
    ])
  ]

  revert-defined :
      (k : ℕ) (m : Bytes)
      → (m' : Bytes) × (revert_found (or_missing (view s k)) s c (pos k) m ≡ some m')
  unfolding revert_found
  revert-defined k m = go (view s k) refl
    where
      go :
          (o : Option SingleData)
          → view s k ≡ o
          → (m' : Bytes) × (revert_found (or_missing o) s c (pos k) m ≡ some m')
      go none e = (m, refl)
      go (some d) e = found-defined k d m e

  pub revert_array-defined :
      (ks : List ℤ)
      → All IsSeq ks
      → (m : Bytes) → (m' : Bytes) × (revert_by_sequence_number_array uninit s ks c m ≡ some m')
  unfolding revert_by_sequence_number_array
  revert_array-defined [] seqs m = (m, refl)
  revert_array-defined (k ∷ ks) ((a, e, small), seqs) m =
      let (m1, first) = revert-defined a m in
      let (m2, rest) = revert_array-defined ks seqs m1 in
      (m2, rw e (rw (lookup-view s usable.sized uninit a) (rw first rest)))

  pub undo_array-defined :
      (ks : List ℤ)
      → All IsSeq ks
      → (m : Bytes) → (m' : Bytes) × (undo_by_sequence_number_array uninit s ks m ≡ some m')
  unfolding undo_by_sequence_number_array
  undo_array-defined [] seqs m = (m, refl)
  undo_array-defined (k ∷ ks) ((a, e, small), seqs) m =
      let (m2, rest) =
        undo_array-defined ks seqs (undo_by_sequence_number (or_missing (view s a)) m) in
      (m2, rw e (rw (lookup-view s usable.sized uninit a) rest))

module _ (P : Platform) (setup : Setup) where
  open P use {World, run_command, open_pool}
  open setup use {uninit, uninit_flag, c_log, is_libpmemobj, pool_address}

  -- The memory and the outside after a run of the command, with the pool opened anew.
  abbrev pub settled : World → Bytes → Bytes × World
  settled w b = if is_libpmemobj then (let (_, b', w') = open_pool w b in (b', w')) else (b, w)

  -- The state is the one that a run of the command without failure left.
  pub record IsCured (st : State World) : Type 0 where
    pub before : State World
    pub succeeded : (command P before).0 ≡ false
    pub memory : st.bytes ≡ (settled (command P before).1.world (command P before).1.bytes).0
    pub outside : st.world ≡ (settled (command P before).1.world (command P before).1.bytes).1

  pub reopen_pool-Quiet :
      (st : State World)
      → IsSized st.s_log
      → (st' : State World) × (reopen_pool P setup st ≡ returned st')
        × Quiet st st'
        × (st'.bytes ≡ (settled st.world st.bytes).0)
        × (st'.world ≡ (settled st.world st.bytes).1)
  unfolding reopen_pool
  reopen_pool-Quiet st sized = elim (Bool-cases is_libpmemobj) [
    | inl obj ↦
        let (pop, st1, opened, quiet, b, w) = redo-Quiet P st sized in
        (
          record st1 { pop = pop },
          rw obj (rw opened),
          record {
            sized = quiet.sized;
            same = quiet.same;
            tries = quiet.tries;
            success = quiet.success;
            count = quiet.count;
            items = quiet.items;
            total = quiet.total;
            reverted = quiet.reverted;
          },
          rw obj b,
          rw obj w,
        )
    | inr plain ↦ (st, rw plain, Quiet-outside st st.bytes st.world sized, rw plain, rw plain)
  ]
