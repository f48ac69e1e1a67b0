-- ===== src/Reactor/Platform.antt =====
-- What the reactor asks of the system and of the persistent memory library, which are not part of
-- the repository: running a command line, and opening and closing the pool. Each may change the
-- memory in any way and may answer anything.
use arthas.Prelude.{ℕ, ℤ, Bool, false, Option, none, some, ◌==◌, not}
use arthas.Memory.{Bytes}
use arthas.Reactor.Types.{SeqLog}

-- The status of a command: an exit code, or the end by a signal.
pub data Status : Type 0 where
  exited : ℕ → Status
  signaled : Status

-- `WIFEXITED(ret_val)` and `WEXITSTATUS(ret_val) != 0`.
abbrev pub has_failed : Status → Bool
has_failed (exited code) = not (code == 0)
has_failed signaled = false

-- `open_pool` returns the address of the mapping, or 0 for `NULL`.
pub record Platform : Type 1 where
  pub World : Type 0
  pub run_command : World → Bytes → Status × Bytes × World
  pub run_kill_script : World → Bytes → Bytes × World
  pub open_pool : World → Bytes → ℕ × Bytes × World
  pub close_pool : ℕ → World → Bytes → Bytes × World

-- The memory, the outside, the table, and the global variables of the reactor.
pub record State (World : Type 0) : Type 0 where
  pub bytes : Bytes
  pub world : World
  pub s_log : SeqLog
  pub pop : ℕ
  pub coarse_grained_tries : ℕ
  pub binary_success : ℤ
  pub binary_reversion_count : ℕ
  pub binary_reverted_items : ℕ
  pub total_reexecutions : ℕ
  pub total_reverted_items : ℕ

-- How a piece of code ends: with a value, in undefined behaviour, or not within the fuel.
pub data Run {ℓ} (A : Type ℓ) : Type ℓ where
  returned : A → Run A
  undefined unfinished : Run A

abbrev pub bind {ℓ κ} : {A : Type ℓ} {B : Type κ} → Run A → (A → Run B) → Run B
bind (returned a) k = k a
bind undefined k = undefined
bind unfinished k = unfinished

abbrev pub defined {ℓ} : {A : Type ℓ} → Option A → Run A
defined none = undefined
defined (some a) = returned a
