-- ===== src/Memory/Copy.antt =====
-- `memcpy` inside and outside of the block that it writes.
use arthas.Prelude.{ℕ, ◌+◌, ◌-◌, ◌<◌, ◌≤◌, ◌≡◌, ◌⊎◌, false, arith}
use arthas.Memory.{Bytes, within, memcpy}

-- Two blocks share no address.
abbrev pub Apart : ℕ → ℕ → ℕ → ℕ → Type 0
Apart p n q k = (p + n ≤ q) ⊎ (q + k ≤ p)

-- Two memories agree on the `n` bytes from `p`.
abbrev pub SameAt : ℕ → ℕ → Bytes → Bytes → Type 0
SameAt p n m m' = (i : ℕ) → i < n → m (p + i) ≡ m' (p + i)

add-sub : (a b : ℕ) → a + b - a ≡ b
add-sub a b = omega arith

pub memcpy-inside :
    (dst src n : ℕ) (m : Bytes) (i : ℕ) → i < n → memcpy dst src n m (dst + i) ≡ m (src + i)
unfolding memcpy
memcpy-inside dst src n m i h = rw add-sub (ground arith)

pub memcpy-outside :
    (dst src n : ℕ) (m : Bytes) (a : ℕ) → within dst n a ≡ false → memcpy dst src n m a ≡ m a
unfolding memcpy
memcpy-outside dst src n m a h = rw h

pub memcpy-Apart :
    (dst src n q k : ℕ) (m : Bytes) → Apart dst n q k → SameAt q k (memcpy dst src n m) m
unfolding memcpy
memcpy-Apart dst src n q k m apart i h = ground arith

pub memcpy-past :
    (dst src n : ℕ) (m : Bytes) (j : ℕ) → n ≤ j → memcpy dst src n m (dst + j) ≡ m (dst + j)
unfolding memcpy
memcpy-past dst src n m j h = ground arith

pub memcpy-before : (dst src n : ℕ) (m : Bytes) (a : ℕ) → a < dst → memcpy dst src n m a ≡ m a
unfolding memcpy
memcpy-before dst src n m a h = ground arith
