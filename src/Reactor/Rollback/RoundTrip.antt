-- ===== src/Reactor/Rollback/RoundTrip.antt =====
-- A reversion and its undo (reactor/lib/rollback.c, reactor/lib/core.cpp).
use arthas.Prelude.{
  ℕ, suc, ◌+◌, ◌-◌, ◌≤◌, ◌<◌, ◌≡◌, refl, ◌∙◌, ℤ, pos, Bool, false, inl, inr, some, Option-cases,
  List, [], ◌∷◌, ◌++◌, map, All, arith, get_elem?, ◌>>=◌,
}
use mathlib.Core.List.{reverse, reverse-append}
use arthas.Memory.{Bytes, within, memcpy}
use arthas.Memory.Copy.{Apart, memcpy-inside, memcpy-Apart, memcpy-past}
use arthas.Reactor.Types.{SingleData, CheckpointLog, SeqLog}
use arthas.Reactor.SeqLog.{at, lookup}
use arthas.Reactor.SeqLog.Table.{IsSized, view, lookup-view, lookup_undo_save-view}
use arthas.Reactor.Rollback.{
  revert_found, revert_by_sequence_number_array, undo_by_sequence_number,
  undo_by_sequence_number_array,
}

-- A version with an older one: its key, and where the bytes of the older version are.
pub record Item : Type 0 where
  pub key : ℕ
  pub entry : SingleData
  pub older : ℕ
  pub source : ℕ
  pub source_size : ℕ

abbrev pub keys : List Item → List ℤ
keys = map (λ i. pos i.key)

-- The address lies in the buffer that the item's bytes are saved in.
abbrev pub in_buffer : Item → ℕ → Bool
in_buffer i a = within i.entry.content i.entry.size a

-- The table holds the item.
pub record IsStored (s : SeqLog) (i : Item) : Type 0 where
  pub stored : view s i.key ≡ some i.entry
  pub tagged : i.entry.sequence_number ≡ pos i.key
  pub newer : i.entry.version ≡ pos (suc i.older)
  pub source_at : get_elem? i.entry.old_data i.older ≡ some i.source
  pub size_at : get_elem? i.entry.old_size i.older ≡ some i.source_size

-- Its older version is no longer than the newer one, and its buffer lies outside its own place.
pub record IsRevertible (s : SeqLog) (i : Item) : Type 0 where
  pub held : IsStored s i
  pub fits : i.source_size ≤ i.entry.size
  pub apart : Apart i.entry.content i.entry.size i.entry.sorted_pmem_address i.entry.size

-- No two items share a buffer.
abbrev pub BuffersApart : List Item → Type 0
BuffersApart [] = Unit
BuffersApart (i ∷ is) =
    All (λ j. Apart i.entry.content i.entry.size j.entry.content j.entry.size) is × BuffersApart is

-- The memories agree outside the buffers.
abbrev pub SameOutside : List Item → Bytes → Bytes → Type 0
SameOutside is m m' = (a : ℕ) → All (λ i. in_buffer i a ≡ false) is → m a ≡ m' a

buffer-out :
    (i : Item) (is : List Item)
    → All (λ j. Apart i.entry.content i.entry.size j.entry.content j.entry.size) is
    → (k : ℕ) → k < i.entry.size
    → All (λ j. in_buffer j (i.entry.content + k) ≡ false) is
buffer-out i [] apart k h = tt
buffer-out i (j ∷ js) apart k h = (
  out i.entry.content i.entry.size j.entry.content j.entry.size apart.0 h,
  buffer-out i js apart.1 k h,
)
  where
    out : (p n q l : ℕ) → Apart p n q l → k < n → within q l (p + k) ≡ false
    out p n q l d h' = ground arith

module _ (uninit : SingleData) (s : SeqLog) (sized : IsSized s) where
  -- The memory after one item is reverted.
  abbrev reverted : Item → Bytes → Bytes
  reverted i m =
      let d = i.entry in
      memcpy d.sorted_pmem_address i.source i.source_size
        (memcpy d.content d.sorted_pmem_address d.size m)

  module _ (i : Item) (r : IsStored s i) where
    lookup-item : lookup uninit s (pos i.key) ≡ some i.entry
    lookup-item = rw (lookup-view s sized uninit i.key, r.stored)

    revert_found-item :
        (c : CheckpointLog) (m : Bytes)
        → revert_found i.entry s c (pos i.key) m ≡ some (reverted i m)
    unfolding revert_found at
    revert_found-item c m =
        rw (r.tagged, r.newer)
          (rw
            (
              lookup_undo_save-view s sized i.key i.entry.sorted_pmem_address i.entry.size m,
              r.stored,
            )
            (rw (r.source_at, r.size_at)))

    undo-item :
        (m : Bytes)
        → undo_by_sequence_number i.entry m
          ≡ memcpy i.entry.sorted_pmem_address i.entry.content i.entry.size m
    unfolding undo_by_sequence_number
    undo-item m = rw r.newer

    -- In a table in shape (`IsSized`), for a version whose older version is longer than itself and
    -- stands apart from the buffer of the newer one, a reversion and its undo run to the end, and
    -- each byte of the older version behind the length of the newer one stays in the pool.
    pub undo_leaves_tail :
        (c : CheckpointLog) (m : Bytes) (j : ℕ)
        → i.entry.size ≤ j
        → j < i.source_size
        → Apart i.entry.content i.entry.size i.source i.source_size
        → (m1 : Bytes) × (revert_by_sequence_number_array uninit s (pos i.key ∷ []) c m ≡ some m1)
          × (m2 : Bytes) × (undo_by_sequence_number_array uninit s (pos i.key ∷ []) m1 ≡ some m2)
          × (m2 (i.entry.sorted_pmem_address + j) ≡ m (i.source + j))
    unfolding revert_by_sequence_number_array undo_by_sequence_number_array
    undo_leaves_tail c m j past inside apart = (
      reverted i m,
      rw (lookup-item, revert_found-item c m),
      memcpy i.entry.sorted_pmem_address i.entry.content i.entry.size (reverted i m),
      rw (lookup-item, undo-item),
      memcpy-past i.entry.sorted_pmem_address i.entry.content i.entry.size (reverted i m) j past
          ∙ memcpy-inside i.entry.sorted_pmem_address i.source i.source_size
              (memcpy i.entry.content i.entry.sorted_pmem_address i.entry.size m) j inside
          ∙ memcpy-Apart i.entry.content i.entry.sorted_pmem_address i.entry.size i.source
              i.source_size m apart j inside,
    )

  module _ (i : Item) (r : IsRevertible s i) where
    -- Undoing a reversion, behind anything that keeps the buffer, restores the other bytes.
    undo-reverted :
        (m m' : Bytes) (a : ℕ)
        → m' a ≡ reverted i m a
        → ((j : ℕ)
            → j < i.entry.size
            → m' (i.entry.content + j) ≡ reverted i m (i.entry.content + j))
        → in_buffer i a ≡ false
        → undo_by_sequence_number i.entry m' a ≡ m a
    unfolding memcpy
    undo-reverted m m' a same kept out =
        rw (undo-item i r.held)
          (ground (arith, kept (a - i.entry.sorted_pmem_address), r.fits, r.apart))

  undo-append :
      (xs ys : List ℤ) (m : Bytes)
      → undo_by_sequence_number_array uninit s (xs ++ ys) m ≡ (
          undo_by_sequence_number_array uninit s xs m >>= undo_by_sequence_number_array uninit s ys)
  unfolding undo_by_sequence_number_array
  undo-append [] ys m = refl
  undo-append (x ∷ xs) ys m = elim (Option-cases (lookup uninit s x)) [
    | inl e ↦ rw e
    | inr (d, e) ↦ rw e (undo-append xs ys (undo_by_sequence_number d m))
  ]

  -- An array of reversions, and the undo of the same sequence numbers in the opposite order, both
  -- run to the end, and give back every byte outside the buffers.
  pub revert-undo :
      (c : CheckpointLog) (items : List Item)
      → All (IsRevertible s) items
      → BuffersApart items
      → (m : Bytes)
      → (m1 : Bytes) × (revert_by_sequence_number_array uninit s (keys items) c m ≡ some m1)
        × (m2 : Bytes) × (undo_by_sequence_number_array uninit s (reverse (keys items)) m1
            ≡ some m2)
        × SameOutside items m2 m
  unfolding revert_by_sequence_number_array undo_by_sequence_number_array
  revert-undo c [] r apart m = (m, refl, m, refl, λ a o. refl)
  revert-undo c (i ∷ is) r apart m =
      let (m1, ran, m2, undone, same) = revert-undo c is r.1 apart.1 (reverted i m) in
      (
        m1,
        rw (lookup-item i r.0.held, revert_found-item i r.0.held c m) ran,
        undo_by_sequence_number i.entry m2,
        rw (reverse-append (pos i.key ∷ []) (keys is), undo-append, undone, lookup-item i r.0.held),
        λ a o.
            undo-reverted i r.0 m m2 a (same a o.1)
              (λ j h. same (i.entry.content + j) (buffer-out i is apart.0 j h)) o.0,
      )
