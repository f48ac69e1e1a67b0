-- ===== src/Examples/Search.antt =====
-- A search over two versions, on a program that fails in its first run.
use arthas.Prelude.{
  ◌+◌, ◌≤◌, ◌≡◌, refl, ℕ, ℤ, pos, negsuc, true, false, [], ◌∷◌, inl, inr, arith, zero, suc,
}
use arthas.Memory.{Bytes}
use arthas.Reactor.Types.{SeqLog}
use arthas.Reactor.Platform.{Platform, exited, State, returned, unfinished}
use arthas.Reactor.Reexecute.{re_execute, fine_grain, coarse_grain_naive, command}
use arthas.Reactor.Reexecute.Outcome.{Quiet, re_execute-fine, re_execute-naive_endless}
use arthas.Reactor.Binary.{Setup, attempt, binary_reversion}
use arthas.Reactor.Binary.Attempt.{IsUsable}
use arthas.Reactor.Binary.Rounds.{Attempted, attempt-Attempted}
use arthas.Reactor.Binary.Branches.{IsEnd}
use arthas.Reactor.Binary.Search.{binary_reversion-IsEnd}
use arthas.Reactor.Arckpt.{arckpt}
use arthas.Reactor.Arckpt.Rounds.{IsOver, arckpt-IsOver}
use mathlib.Core.Bool.{Bool}
use arthas.Examples.Data.{version_5, two_versions, two_versions-IsSized, two_versions-view}

-- The outside counts the runs; the first run fails, and no other.
abbrev pub second_run_works : Platform
second_run_works = record {
  World = ℕ;
  run_command = λ w m. (exited (elim w [ zero ↦ 1 | suc n ↦ 0 ]), m, w + 1);
  run_kill_script = λ w m. (m, w);
  open_pool = λ w m. (4096, m, w);
  close_pool = λ pop w m. (m, w);
}

abbrev always_fails : Platform
always_fails = record second_run_works { run_command = λ w m. (exited 1, m, w) }

abbrev memory : Bytes
memory = λ a. a

abbrev pub start : SeqLog → State ℕ
start s = record {
  bytes = memory;
  world = 0;
  s_log = s;
  pop = 4096;
  coarse_grained_tries = 0;
  binary_success = negsuc 0;
  binary_reversion_count = 0;
  binary_reverted_items = 0;
  total_reexecutions = 0;
  total_reverted_items = 0;
}

re_execute-fine_example :
    (st' : State ℕ) × (re_execute second_run_works 1 version_5 fine_grain
        (pos 0)
        4096
        (start two_versions)
      ≡ returned (negsuc 0, st'))
    × Quiet (start two_versions) st'
    × (true ≡ false → st' ≡ (command second_run_works (start two_versions)).1)
unfolding command
re_execute-fine_example =
    re_execute-fine second_run_works 0 version_5 (pos 0) 4096 (start two_versions)
      two_versions-IsSized (λ e. cc)

re_execute-naive_endless_example :
    re_execute always_fails 7 version_5 coarse_grain_naive (pos 9) 4096 (start two_versions)
    ≡ unfinished
re_execute-naive_endless_example =
    re_execute-naive_endless always_fails (λ w m. refl) 7 version_5 (pos 9) 4096
      (start two_versions) two_versions-IsSized (λ e. cc)

abbrev pub setup : Setup
setup = record {
  uninit = version_5;
  uninit_flag = pos 0;
  c_log = record { size = 0; variable_count = pos 0; list = [] };
  is_libpmemobj = true;
  pool_address = 4096;
}

pub two_versions-IsUsable : IsUsable setup.c_log two_versions
two_versions-IsUsable = record {
  sized = two_versions-IsSized;
  rollable = λ k d e. elim (two_versions-view k d e) [
    | inl nine ↦ rw nine (inl (1, 2200, 3, refl, refl, refl))
    | inr five ↦ rw five (inl (0, 2000, 4, refl, refl, refl))
  ];
}

attempt-Attempted_example :
    (flag : ℤ) × (st' : State ℕ) × (attempt second_run_works setup 2
        (pos 5 ∷ pos 9 ∷ [])
        (pos 0)
        (start two_versions)
      ≡ returned (flag, st'))
    × Attempted second_run_works setup (pos 5 ∷ pos 9 ∷ []) (start two_versions) flag st'
attempt-Attempted_example =
    attempt-Attempted second_run_works setup 2 (pos 5 ∷ pos 9 ∷ []) (pos 0) (start two_versions)
      (omega arith) (omega arith) ((5, refl, omega arith), ((9, refl, omega arith), tt))
      two_versions-IsUsable (λ e. cc)

binary_reversion-IsEnd_example :
    (r : ℤ) × (st' : State ℕ) × (binary_reversion second_run_works setup 3
        (pos 5 ∷ pos 9 ∷ [])
        0
        (pos 1)
        (start two_versions)
      ≡ returned (r, st'))
    × IsEnd second_run_works setup (start two_versions) st'
    × (1 ≤ st'.total_reexecutions)
binary_reversion-IsEnd_example =
    binary_reversion-IsEnd second_run_works setup 3 (pos 5 ∷ pos 9 ∷ []) (start two_versions)
      (omega arith) ((5, refl, omega arith), ((9, refl, omega arith), tt))
      (record {
        usable = two_versions-IsUsable;
        fresh = λ e. cc;
        few = omega arith;
        enough = omega arith;
      })

arckpt-IsOver_example :
    (ok : Bool) × (st' : State ℕ) × (arckpt second_run_works setup (pos 9) (start two_versions)
      ≡ returned (ok, st'))
    × IsOver second_run_works setup 9 (start two_versions) ok st'
arckpt-IsOver_example =
    arckpt-IsOver second_run_works setup 9 (start two_versions) (omega arith) two_versions-IsUsable
      (λ e. cc)
