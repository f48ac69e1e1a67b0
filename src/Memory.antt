-- ===== src/Memory.antt =====
-- The memory of the reactor process: one byte at each address, the mapped persistent pool and the
-- heap alike. Pointers are addresses. `memcpy` and `malloc` are the C library's.
pub mod Copy
use arthas.Prelude.{ℕ, ◌+◌, ◌-◌, Bool, ◌&&◌, leb, ltb, if◌then◌else◌}

abbrev pub Bytes : Type 0
Bytes = ℕ → ℕ

-- The address lies in the `n` bytes from `p`.
abbrev pub within : ℕ → ℕ → ℕ → Bool
within p n a = leb p a && ltb a (p + n)

unfoldable pub memcpy : ℕ → ℕ → ℕ → Bytes → Bytes
memcpy dst src n m a = if within dst n a then m (src + (a - dst)) else m a

-- The heap beside the bytes: everything from `brk` on is unused.
pub record Heap : Type 0 where
  pub bytes : Bytes
  pub brk : ℕ

-- `malloc` returns memory that nothing else uses, and `fresh` copies a block into such memory:
-- `p = malloc(n); memcpy(p, src, n);`.
unfoldable pub fresh_copy : ℕ → ℕ → Heap → ℕ × Heap
unfolding memcpy
fresh_copy src n h = (h.brk, record { bytes = memcpy h.brk src n h.bytes; brk = h.brk + n })
