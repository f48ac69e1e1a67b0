-- ===== src/Reactor/SeqLog/Table.antt =====
-- The table (reactor/lib/checkpoint.c) as a finite map from sequence numbers to versions.
use arthas.Prelude.{
  ℕ, zero, suc, ◌%◌, ◌^◌, ◌≤◌, ◌<◌, ◌≡◌, ◌≢◌, refl, pos, negsuc, inl, inr, Option, none, some,
  arith, ◌==◌, ==_iff, to_int-pos, get_elem?, set, length, length-set, get_elem?-lt,
  get_elem?-set_self, get_elem?-set_ne, if◌then◌else◌, ◌>>=◌, Bool-cases,
}
use mathlib.Core.Option
use arthas.Memory.{Bytes, memcpy}
use arthas.Reactor.Types.{SingleData, Row, SeqLog}
use arthas.Reactor.SeqLog.{
  hash_code, at, put_at, find, change, insert_row, bucket, insert, rev_lookup, lookup_modify,
  lookup, lookup_undo_save,
}
use arthas.Reactor.SeqLog.Rows.{find-change, find-insert_row}

-- The table has a slot for each hash, and the slot 92 that `insert` reads.
pub record IsSized (s : SeqLog) : Type 0 where
  pub not_empty : 0 < s.size
  pub fits_int : s.size < 2 ^ 31
  pub slots : s.size ≤ length s.list
  pub probed : 92 < length s.list

-- The version that is stored under a key.
unfoldable pub view : SeqLog → ℕ → Option SingleData
unfolding bucket find
view s k = bucket s (pos k) >>= find (pos k)

abbrev pub home : SeqLog → ℕ → ℕ
home s k = k % s.size

hash_code-pos : (n k : ℕ) → 0 < n → n < 2 ^ 31 → hash_code n (pos k) ≡ some (pos (k % n))
unfolding hash_code
hash_code-pos zero k h fits = absurd (omega arith)
hash_code-pos (suc n) k h fits = rw (to_int-pos (k % suc n) (omega arith))

bucket-home : (s : SeqLog) → IsSized s → (k : ℕ) → bucket s (pos k) ≡ get_elem? s.list (home s k)
unfolding bucket at
bucket-home s sized k = rw (hash_code-pos s.size k sized.not_empty sized.fits_int)

pub view-home :
    (s : SeqLog) → IsSized s → (k : ℕ) → view s k ≡ (get_elem? s.list (home s k) >>= find (pos k))
unfolding view
view-home s sized k = rw (bucket-home s sized k)

module _ (s : SeqLog) (sized : IsSized s) where
  pub home-lt : (k : ℕ) → home s k < length s.list
  home-lt k = omega (arith, sized.not_empty, sized.slots)

  pub bucket-defined : (k : ℕ) → (row : Row) × (get_elem? s.list (home s k) ≡ some row)
  bucket-defined k = get_elem?-lt s.list (home s k) (home-lt k)

  -- The table with another chain at the home of a key.
  abbrev pub with_row : ℕ → Row → SeqLog
  with_row k row = record s { list = set s.list (home s k) row }

  pub with_row-IsSized : (k : ℕ) (row : Row) → IsSized (with_row k row)
  with_row-IsSized k row = record {
    not_empty = sized.not_empty;
    fits_int = sized.fits_int;
    slots = rw length-set sized.slots;
    probed = rw length-set sized.probed;
  }

  pub insert-eq :
      (k : ℕ) (d : SingleData) (row : Row)
      → get_elem? s.list (home s k) ≡ some row
      → insert s (pos k) d ≡ some (with_row k (insert_row (pos k) d row))
  unfolding insert at put_at
  insert-eq k d row e = rw (
    (get_elem?-lt s.list 92 sized.probed).1,
    hash_code-pos s.size k sized.not_empty sized.fits_int,
    e,
  )

  pub lookup_modify-eq :
      (k addr : ℕ) (row : Row)
      → get_elem? s.list (home s k) ≡ some row
      → lookup_modify s (pos k) addr
        ≡ some (with_row k (change (pos k) (λ d. record d { sorted_pmem_address = addr }) row))
  unfolding lookup_modify at put_at
  lookup_modify-eq k addr row e = rw (hash_code-pos s.size k sized.not_empty sized.fits_int, e)

  -- The meaning of the table after a write to the chain of `k` that changes `k` alone.
  view-with_row :
      (k : ℕ) (old new : Row) (v : Option SingleData)
      → get_elem? s.list (home s k) ≡ some old
      → ((j : ℕ) → find (pos j) new ≡ (if k == j then v else find (pos j) old))
      → (j : ℕ) → view (with_row k new) j ≡ (if k == j then v else view s j)
  view-with_row k old new v e reads j =
      rw (view-home (with_row k new) (with_row-IsSized k new) j, view-home s sized j)
        (elim (Bool-cases (home s k == home s j)) [
          | inl same ↦
              let same' = (==_iff (home s k) (home s j)).0 same in
              rw (← same', get_elem?-set_self s.list (home s k) new (home-lt k), e) (reads j)
          | inr differ ↦
              let differ' : home s k ≢ home s j = ground arith in
              rw (get_elem?-set_ne s.list (home s k) (home s j) new differ')
                (ground (arith, ==_iff k j))
        ])

  view-row :
      (k : ℕ) (row : Row) → get_elem? s.list (home s k) ≡ some row → view s k ≡ find (pos k) row
  view-row k row e = rw (view-home s sized k, e)

  -- On a table in shape (`IsSized`), and with a key that is not negative, `insert` succeeds, keeps
  -- the table in shape, and changes the version under its key alone.
  pub insert-Writes :
      (k : ℕ) (d : SingleData)
      → (s' : SeqLog) × (insert s (pos k) d ≡ some s')
        × IsSized s'
        × (s'.size ≡ s.size)
        × ((j : ℕ) → view s' j ≡ (if k == j then some d else view s j))
  insert-Writes k d =
      let (row, e) = bucket-defined k in
      let new = insert_row (pos k) d row in
      (
        with_row k new,
        insert-eq k d row e,
        with_row-IsSized k new,
        refl,
        view-with_row k row new (some d) e (λ j. find-insert_row (pos k) (pos j) d row),
      )

  -- The change of `lookup_modify`.
  abbrev pub at_address : ℕ → SingleData → SingleData
  at_address addr d = record d { sorted_pmem_address = addr }

  -- On a table in shape (`IsSized`), and with a key that is not negative, `lookup_modify` succeeds,
  -- keeps the table in shape, and sets the address of the version under its key, if there is one,
  -- changing nothing else.
  pub lookup_modify-Writes :
      (k addr : ℕ)
      → (s' : SeqLog) × (lookup_modify s (pos k) addr ≡ some s')
        × IsSized s'
        × (s'.size ≡ s.size)
        × ((j : ℕ)
            → view s' j ≡ (if k == j then Option.map (at_address addr) (view s j) else view s j))
  lookup_modify-Writes k addr =
      let (row, e) = bucket-defined k in
      let new = change (pos k) (at_address addr) row in
      (
        with_row k new,
        lookup_modify-eq k addr row e,
        with_row-IsSized k new,
        refl,
        λ j.
            let f = at_address addr in
            let reads = λ (i : ℕ). find-change (pos k) (pos i) f row in
            let written =
              view-with_row k row new (Option.map f (find (pos k) row)) e
                (λ i. ground (arith, reads i, ==_iff k i)) j in
            ground (arith, written, view-row k row e, ==_iff k j),
      )

  -- The two lookups read the map.
  pub lookup-view :
      (u : SingleData) (k : ℕ)
      → lookup u s (pos k)
        ≡ some (elim (view s k) [ none ↦ record u { sequence_number = negsuc 0 } | some d ↦ d ])
  unfolding lookup view
  lookup-view u k = let (row, e) = bucket-defined k in rw (bucket-home s sized k, e)

  pub rev_lookup-view :
      (k : ℕ) → rev_lookup s (pos k) ≡ some (elim (view s k) [ none ↦ negsuc 0 | some d ↦ pos 1 ])
  unfolding rev_lookup view
  rev_lookup-view k = let (row, e) = bucket-defined k in rw (bucket-home s sized k, e)

  pub lookup_undo_save-view :
      (k addr size : ℕ) (m : Bytes)
      → lookup_undo_save s (pos k) addr size m
        ≡ some
            (elim (view s k) [ none ↦ m | some d ↦ memcpy d.content d.sorted_pmem_address size m ])
  unfolding lookup_undo_save view
  lookup_undo_save-view k addr size m =
      let (row, e) = bucket-defined k in rw (bucket-home s sized k, e)
