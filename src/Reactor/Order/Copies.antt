-- ===== src/Reactor/Order/Copies.antt =====
-- The copies in one round of the ordering loops (reactor/lib/checkpoint.c).
use arthas.Prelude.{ℕ, ◌+◌, ◌≤◌, ◌<◌, ◌≡◌, refl, arith, get_or, length, ◌∙◌}
use arthas.Memory.{Heap, memcpy}
use arthas.Memory.Copy.{memcpy-inside, memcpy-before}
use arthas.Reactor.Types.{SingleData, CheckpointData, max_versions}

abbrev pub source : CheckpointData → ℕ → ℕ
source c i = get_or c.content i 0

abbrev pub extent : CheckpointData → ℕ → ℕ
extent c i = get_or c.size i 0

abbrev pub old_copy : SingleData → ℕ → ℕ
old_copy d i = get_or d.old_data i 0

-- The arrays of the structures have `MAX_VERSIONS` slots.
pub record IsShaped (c : CheckpointData) : Type 0 where
  pub content_slots : length c.content ≡ max_versions
  pub size_slots : length c.size ≡ max_versions
  pub seq_slots : length c.sequence_number ≡ max_versions
  pub tx_slots : length c.tx_id ≡ max_versions

pub record HasSlots (d : SingleData) : Type 0 where
  pub data_slots : length d.old_data ≡ max_versions
  pub size_slots : length d.old_size ≡ max_versions

-- The first `n` versions lie below the unused memory.
abbrev pub SourcesBelow : CheckpointData → ℕ → ℕ → Type 0
SourcesBelow c n b = (i : ℕ) → i < n → source c i + extent c i ≤ b

-- `h'` only uses more memory than `h`.
pub record Extends (h h' : Heap) : Type 0 where
  pub grows : h.brk ≤ h'.brk
  pub kept : (a : ℕ) → a < h.brk → h'.bytes a ≡ h.bytes a

-- The block at `p`, made after `h`, is a copy of the version `i` as `h` holds it.
pub record IsCopy (c : CheckpointData) (h h' : Heap) (i p : ℕ) : Type 0 where
  pub new : h.brk ≤ p
  pub used : p + extent c i ≤ h'.brk
  pub same : (x : ℕ) → x < extent c i → h'.bytes (p + x) ≡ h.bytes (source c i + x)

-- `d'` is `d` with copies of the versions `from`, ..., `to - 1` in its arrays.
pub record HasCopies (c : CheckpointData) (from to : ℕ) (d : SingleData) (h : Heap)
    (d' : SingleData) (h' : Heap) : Type 0 where
  pub extends : Extends h h'
  pub shape : HasSlots d'
  pub rest : d' ≡ record d { old_data = d'.old_data; old_size = d'.old_size }
  pub before : (i : ℕ) → i < from → old_copy d' i ≡ old_copy d i
  pub before_size : (i : ℕ) → i < from → get_or d'.old_size i 0 ≡ get_or d.old_size i 0
  pub copied : (i : ℕ) → from ≤ i → i < to → IsCopy c h h' i (old_copy d' i)
  pub copied_size : (i : ℕ) → from ≤ i → i < to → get_or d'.old_size i 0 ≡ extent c i

pub Extends-refl : (h : Heap) → Extends h h
Extends-refl h = record { grows = omega arith; kept = λ a b. refl }

pub Extends-trans : (h h1 h2 : Heap) → Extends h h1 → Extends h1 h2 → Extends h h2
Extends-trans h h1 h2 a b = record {
  grows = omega (arith, a.grows, b.grows);
  kept = λ x l. b.kept x (omega (arith, a.grows)) ∙ a.kept x l;
}

-- The heap after a copy of the block of the version `i`.
abbrev pub after_copy : CheckpointData → ℕ → Heap → Heap
after_copy c i h = record {
  bytes = memcpy h.brk (source c i) (extent c i) h.bytes;
  brk = h.brk + extent c i;
}

pub after_copy-Extends : (c : CheckpointData) (i : ℕ) (h : Heap) → Extends h (after_copy c i h)
after_copy-Extends c i h = record {
  grows = omega arith;
  kept = λ a l. memcpy-before h.brk (source c i) (extent c i) h.bytes a l;
}

pub after_copy-IsCopy :
    (c : CheckpointData) (i : ℕ) (h : Heap) → IsCopy c h (after_copy c i h) i h.brk
after_copy-IsCopy c i h = record {
  new = omega arith;
  used = omega arith;
  same = λ x l. memcpy-inside h.brk (source c i) (extent c i) h.bytes x l;
}

-- A copy stays one when more memory is used.
pub IsCopy-Extends :
    (c : CheckpointData) (h h1 h2 : Heap) (i p : ℕ)
    → IsCopy c h h1 i p
    → Extends h1 h2
    → IsCopy c h h2 i p
IsCopy-Extends c h h1 h2 i p copy e = record {
  new = copy.new;
  used = omega (arith, copy.used, e.grows);
  same = λ x l. e.kept (p + x) (omega (arith, copy.used)) ∙ copy.same x l;
}

-- A copy of what lies below is the same, made earlier or later.
pub IsCopy-earlier :
    (c : CheckpointData) (h h1 h2 : Heap) (i p : ℕ)
    → source c i + extent c i ≤ h.brk
    → Extends h h1
    → IsCopy c h1 h2 i p
    → IsCopy c h h2 i p
IsCopy-earlier c h h1 h2 i p below e copy = record {
  new = omega (arith, copy.new, e.grows);
  used = copy.used;
  same = λ x l. copy.same x l ∙ e.kept (source c i + x) (omega arith);
}
