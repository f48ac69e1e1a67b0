-- ===== src/Reactor/Binary/Branches.antt =====
-- Lemmas on the branches of `binary_reversion` behind an attempt (reactor/lib/core.cpp).
use arthas.Prelude.{
  ℕ, ◌+◌, ◌≤◌, ◌<◌, ◌≡◌, ◌≢◌, refl, ℤ, pos, negsuc, ◌==◌, ◌||◌, ltb, sub_ℕ, arith, List, All,
  length, eq_ℤ, eq_ℤ_iff, if◌then◌else◌, ◌∙◌, Bool-cases, ◌⊎◌, inl, inr,
}
use arthas.Memory.{Bytes}
use arthas.Reactor.Decision.{IsSeq}
use arthas.Reactor.Platform.{Platform, State, Run, returned, bind}
use arthas.Reactor.Reexecute.{max_coarse_attempts}
use arthas.Reactor.Binary.{Setup, attempt, undo, on_success, on_failure, binary_reversion_attempts}
use arthas.Reactor.Binary.Attempt.{IsUsable, undo_array-defined, IsCured}
use arthas.Reactor.Binary.Rounds.{attempt-Attempted}
use arthas.Reactor.Binary.Parts.{IsPart}

module _ (P : Platform) (setup : Setup) where
  open P use {World}
  open setup use {uninit, uninit_flag, c_log}

  -- The state can be searched from, within `fuel` rounds.
  pub record IsStart (fuel : ℕ) (st : State World) : Type 0 where
    pub usable : IsUsable c_log st.s_log
    pub fresh : st.coarse_grained_tries ≢ max_coarse_attempts
    pub few : st.binary_reversion_count ≤ 2
    pub enough : 3 ≤ fuel + st.binary_reversion_count

  -- The end of the search: the rounds are counted from 0 again, the runs are bounded, and if the
  -- search reports a success, the memory is what a run without failure left.
  pub record IsEnd (st st' : State World) : Type 0 where
    pub usable : IsUsable c_log st'.s_log
    pub tries : st'.coarse_grained_tries ≡ st.coarse_grained_tries
    pub reset : st'.binary_reversion_count ≡ 0
    pub runs_ge : st.total_reexecutions ≤ st'.total_reexecutions
    pub runs_le : st'.total_reexecutions + st.binary_reversion_count ≤ st.total_reexecutions + 4
    pub verdict :
        (st'.binary_success ≡ st.binary_success)
        ⊎ ((st'.binary_success ≡ pos 1) × IsCured P setup st')

  abbrev pub Search : Type 0
  Search = List ℤ → ℕ → ℤ → State World → Run (ℤ × State World)

  -- The search from here ends so.
  abbrev pub Ends : Run (ℤ × State World) → State World → Type 0
  Ends run st = (r : ℤ) × (st' : State World) × (run ≡ returned (r, st')) × IsEnd st st'

  abbrev pub Works : ℕ → Search → Type 0
  Works fuel again =
      (ks : List ℤ) (st : State World)
      → 0 < length ks
      → All IsSeq ks
      → IsStart fuel st
      → Ends (again ks 0 (sub_ℕ (length ks) 1) st) st

  undo-defined :
      (ks : List ℤ) (st : State World)
      → All IsSeq ks
      → IsUsable c_log st.s_log
      → (bytes : Bytes) × (undo P setup ks st ≡ returned (record st { bytes = bytes }))
  unfolding undo
  undo-defined ks st seqs usable =
      let (bytes, undone) = undo_array-defined uninit c_log st.s_log usable ks seqs st.bytes in
      (bytes, rw undone)

  -- The state behind an attempt, with the round counted.
  pub record IsCounted (fuel : ℕ) (st : State World) : Type 0 where
    pub usable : IsUsable c_log st.s_log
    pub fresh : st.coarse_grained_tries ≢ max_coarse_attempts
    pub few : st.binary_reversion_count ≤ 3
    pub enough : 3 ≤ fuel + st.binary_reversion_count

  module _ (fuel : ℕ) (again : Search) (works : Works fuel again) where
    pub on_success-Ends :
        (n : ℕ) (right : List ℤ) (st : State World)
        → IsPart n right
        → IsCounted fuel st
        → IsCured P setup st
        → Ends (on_success P setup again right st) st
    unfolding on_success
    on_success-Ends n right st part c cured =
        elim (Bool-cases
          (ltb binary_reversion_attempts st.binary_reversion_count || length right == 1)) [
            | inl done ↦ (
              pos 0,
              record st { binary_reversion_count = 0; binary_success = pos 1 },
              rw done,
              record {
                usable = c.usable;
                tries = refl;
                reset = refl;
                runs_ge = omega arith;
                runs_le = omega (arith, c.few);
                verdict = inr (
                  refl,
                  record {
                    before = cured.before;
                    succeeded = cured.succeeded;
                    memory = cured.memory;
                    outside = cured.outside;
                  },
                );
              },
            )
            | inr more ↦
                let (bytes, undone) = undo-defined right st part.seqs c.usable in
                let st1 = record st { bytes = bytes } in
                let (r, st2, ran, end) = works right st1 part.some_part part.seqs (record {
                  usable = c.usable;
                  fresh = c.fresh;
                  few = ground (arith, c.few);
                  enough = c.enough;
                }) in
                (
                  negsuc 0,
                  st2,
                  rw more (rw undone (rw ran)),
                  record {
                    usable = end.usable;
                    tries = end.tries;
                    reset = end.reset;
                    runs_ge = end.runs_ge;
                    runs_le = end.runs_le;
                    verdict = end.verdict;
                  },
                )
          ]

    -- The last attempt, on the left part.
    last-Ends :
        (slots : ℕ) (flag : ℤ) (left : List ℤ) (st : State World)
        → IsPart slots left
        → IsCounted fuel st
        → Ends
            (bind
              (attempt P setup slots left flag (record st { binary_reversion_count = 0 }))
              (λ (flag', st''). returned (
                pos 1,
                if eq_ℤ flag' (pos 1) then record st'' { binary_success = pos 1 } else st'',
              )))
            st
    last-Ends slots flag left st part c =
        let st1 = record st { binary_reversion_count = 0 } in
        let (flag', st2, ran, a) =
          attempt-Attempted P setup slots left flag st1 part.some_part part.fits part.seqs c.usable
            c.fresh in
        elim (Bool-cases (eq_ℤ flag' (pos 1))) [
          | inl ok ↦
              let cured = a.cured ((eq_ℤ_iff flag' (pos 1)).0 ok) in
              (
                pos 1,
                record st2 { binary_success = pos 1 },
                rw ran (rw ok),
                record {
                  usable = a.usable;
                  tries = a.tries;
                  reset = a.count;
                  runs_ge = omega (arith, a.total);
                  runs_le = omega (arith, a.total, c.few);
                  verdict = inr (
                    refl,
                    record {
                      before = cured.before;
                      succeeded = cured.succeeded;
                      memory = cured.memory;
                      outside = cured.outside;
                    },
                  );
                },
              )
          | inr bad ↦ (
            pos 1,
            st2,
            rw ran (rw bad),
            record {
              usable = a.usable;
              tries = a.tries;
              reset = a.count;
              runs_ge = omega (arith, a.total);
              runs_le = omega (arith, a.total, c.few);
              verdict = inl a.success;
            },
          )
        ]

    pub on_failure-Ends :
        (slots : ℕ) (flag : ℤ) (left right : List ℤ) (st : State World)
        → IsPart slots left
        → IsPart slots right
        → IsCounted fuel st
        → Ends (on_failure P setup again slots flag left right st) st
    unfolding on_failure
    on_failure-Ends slots flag left right st lpart rpart c =
        let (bytes, undone) = undo-defined right st rpart.seqs c.usable in
        let st1 = record st { bytes = bytes } in
        let c1 : IsCounted fuel st1 = record {
          usable = c.usable;
          fresh = c.fresh;
          few = c.few;
          enough = c.enough;
        } in
        elim (Bool-cases
          (ltb binary_reversion_attempts st1.binary_reversion_count || length left == 1)) [
            | inl done ↦
                let (r, st2, ran, end) = last-Ends slots flag left st1 lpart c1 in
                (r, st2, rw undone (rw done ran), same_start st1 st st2 refl refl refl refl end)
            | inr more ↦
                let (r, st2, ran, end) = works left st1 lpart.some_part lpart.seqs (record {
                  usable = c.usable;
                  fresh = c.fresh;
                  few = ground (arith, c.few);
                  enough = c.enough;
                }) in
                (
                  negsuc 0,
                  st2,
                  rw undone (rw more (rw ran)),
                  same_start st1 st st2 refl refl refl refl end,
                )
          ]
      where
        same_start :
            (a b e : State World)
            → a.coarse_grained_tries ≡ b.coarse_grained_tries
            → a.binary_reversion_count ≡ b.binary_reversion_count
            → a.total_reexecutions ≡ b.total_reexecutions
            → a.binary_success ≡ b.binary_success
            → IsEnd a e
            → IsEnd b e
        same_start a b e tries count total success end = record {
          usable = end.usable;
          tries = end.tries ∙ tries;
          reset = end.reset;
          runs_ge = omega (arith, end.runs_ge);
          runs_le = omega (arith, end.runs_le);
          verdict = elim end.verdict [ inl s ↦ inl (s ∙ success) | inr cured ↦ inr cured ];
        }
