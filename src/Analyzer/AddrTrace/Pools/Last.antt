-- ===== src/Analyzer/AddrTrace/Pools/Last.antt =====
-- The offsets that `calculatePoolOffsets` leaves, and the last pool
-- (analyzer/lib/Instrument/PmemAddrTrace.cpp).
use arthas.Prelude.{
  ℕ, suc, ◌+◌, ◌≡◌, refl, true, false, leb, Option, none, some, List, [], ◌∷◌, ◌++◌, All, length,
  get_elem?, if◌then◌else◌, arith, ap, sym, ◌∙◌, Bool-cases, inl, inr,
}
use mathlib.Core.List.{append_assoc, append-nil}
use arthas.Analyzer.AddrTrace.{PmemAddrTraceItem, PmemAddrPool, PmemAddrTrace, add_item}
use arthas.Analyzer.AddrTrace.Pools.{is_base, offsets_from, has_no_pools, calculate_pool_offsets}
use arthas.Analyzer.AddrTrace.Pools.Places.{
  fresh_pool, pools_of, put_offset, placed, filled, find_pool-behind, IsLeft, offsets_from-behind,
}

-- The pools of the trace are those of its items.
abbrev pub IsBuilt : PmemAddrTrace → Type 0
IsBuilt t = t.pool_addrs ≡ pools_of 0 t.items

-- The filled pools from the first one on.
unfoldable filled_first : ℕ → List PmemAddrTraceItem → List PmemAddrPool
filled_first i [] = []
filled_first i (item ∷ items) =
    let here = filled (fresh_pool i) item.addr (suc i) items in
    let later = filled_first (suc i) items in if is_base item then here else later

offsets_from-first :
    (i : ℕ) (items : List PmemAddrTraceItem)
    → IsLeft none items
        (filled_first i items)
        (offsets_from i items (pools_of i items) none 0 false)
unfolding offsets_from pools_of placed filled_first
offsets_from-first i [] = record { items_are = refl; pools_are = refl }
offsets_from-first i (item ∷ items) = elim (Bool-cases (is_base item)) [
  | inl b ↦
      let found = find_pool-behind i [] (pools_of (suc i) items) tt in
      let r =
        offsets_from-behind (suc i) items [] (fresh_pool i) item.addr false tt (omega arith) in
      rw b (
        rw found (record {
          items_are = rw b (ap (λ l. item ∷ l) r.items_are);
          pools_are = rw b r.pools_are;
        }))
  | inr n ↦
      let r = offsets_from-first (suc i) items in
      rw n (record { items_are = rw n (ap (λ l. item ∷ l) r.items_are); pools_are = r.pools_are })
]

-- The address of the last pool before an item.
abbrev pub last_base : Option ℕ → List PmemAddrTraceItem → Option ℕ
last_base last [] = last
last_base last (item ∷ items) = last_base (if is_base item then some item.addr else last) items

placed-at :
    (last : Option ℕ) (before : List PmemAddrTraceItem) (x : PmemAddrTraceItem)
    (after : List PmemAddrTraceItem)
    → get_elem? (placed last (before ++ x ∷ after)) (length before)
      ≡ some (if is_base x then x else put_offset (last_base last before) x)
unfolding placed
placed-at last [] x after = elim (Bool-cases (is_base x)) [ inl b ↦ rw b | inr n ↦ rw n ]
placed-at last (y ∷ before) x after = elim (Bool-cases (is_base y)) [
  | inl b ↦ rw b (placed-at (some y.addr) before x after)
  | inr n ↦ rw n (placed-at last before x after)
]

-- The places from `i` on of the items at the base's address or above.
unfoldable pub belonging : ℕ → ℕ → List PmemAddrTraceItem → List ℕ
belonging i base [] = []
belonging i base (item ∷ items) =
    let rest = belonging (suc i) base items in if leb base item.addr then i ∷ rest else rest

abbrev pub NoBase : List PmemAddrTraceItem → Type 0
NoBase = All (λ x. is_base x ≡ false)

filled-belonging :
    (q : PmemAddrPool) (base i : ℕ) (items : List PmemAddrTraceItem)
    → NoBase items
    → filled q base i items ≡ record q { addresses = q.addresses ++ belonging i base items } ∷ []
unfolding filled belonging
filled-belonging q base i [] a =
    ap (λ l. record q { addresses = l } ∷ []) (sym (append-nil q.addresses))
filled-belonging q base i (item ∷ items) (n, a) = elim (Bool-cases (leb base item.addr)) [
  | inl above ↦
      rw (n, above)
        (filled-belonging (record q { addresses = q.addresses ++ i ∷ [] }) base (suc i) items a
          ∙ ap (λ l. record q { addresses = l } ∷ [])
              (append_assoc q.addresses (i ∷ []) (belonging (suc i) base items)))
  | inr below ↦ rw (n, below) (filled-belonging q base (suc i) items a)
]

-- The last pool is the one of the last base.
module _ (x : PmemAddrTraceItem) (b : is_base x ≡ true) (after : List PmemAddrTraceItem)
    (none_after : NoBase after) where
  abbrev filled_pool : ℕ → PmemAddrPool
  filled_pool i = record { pool_addr = i; addresses = belonging (suc i) x.addr after }

  filled-last :
      (q : PmemAddrPool) (base i : ℕ) (before : List PmemAddrTraceItem)
      → (front : List PmemAddrPool) × (filled q base i (before ++ x ∷ after)
          ≡ front ++ filled_pool (i + length before) ∷ [])
  unfolding filled
  filled-last q base i [] =
      let e : i + 0 ≡ i = omega arith in
      (
        q ∷ [],
        rw (b, e)
            (ap (λ l. q ∷ l) (filled-belonging (fresh_pool i) x.addr (suc i) after none_after)),
      )
  filled-last q base i (y ∷ before) =
      let e : suc i + length before ≡ i + suc (length before) = omega arith in
      elim (Bool-cases (is_base y)) [
        | inl c ↦
            let (front, h) = filled-last (fresh_pool i) y.addr (suc i) before in
            (q ∷ front, rw c (ap (λ l. q ∷ l) (h ∙ ap (λ n. front ++ filled_pool n ∷ []) e)))
        | inr n ↦ elim (Bool-cases (leb base y.addr)) [
          | inl above ↦
              let (front, h) =
                filled-last (record q { addresses = q.addresses ++ i ∷ [] }) base (suc i) before in
              (front, rw (n, above) (h ∙ ap (λ n. front ++ filled_pool n ∷ []) e))
          | inr below ↦
              let (front, h) = filled-last q base (suc i) before in
              (front, rw (n, below) (h ∙ ap (λ n. front ++ filled_pool n ∷ []) e))
        ]
      ]

  filled_first-last :
      (i : ℕ) (before : List PmemAddrTraceItem)
      → (front : List PmemAddrPool) × (filled_first i (before ++ x ∷ after)
          ≡ front ++ filled_pool (i + length before) ∷ [])
  unfolding filled_first
  filled_first-last i [] =
      let e : i + 0 ≡ i = omega arith in
      ([], rw (b, e) (filled-belonging (fresh_pool i) x.addr (suc i) after none_after))
  filled_first-last i (y ∷ before) =
      let e : suc i + length before ≡ i + suc (length before) = omega arith in
      elim (Bool-cases (is_base y)) [
        | inl c ↦
            let (front, h) = filled-last (fresh_pool i) y.addr (suc i) before in
            (front, rw c (h ∙ ap (λ n. front ++ filled_pool n ∷ []) e))
        | inr n ↦
            let (front, h) = filled_first-last (suc i) before in
            (front, rw n (h ∙ ap (λ n. front ++ filled_pool n ∷ []) e))
      ]

-- What `calculatePoolOffsets` leaves at an item, and in the last pool.
pub record HasOffsets (t t' : PmemAddrTrace) : Type 0 where
  pub at_item :
      (before : List PmemAddrTraceItem) (x : PmemAddrTraceItem) (after : List PmemAddrTraceItem)
      → t.items ≡ before ++ x ∷ after
      → get_elem? t'.items (length before)
        ≡ some (if is_base x then x else put_offset (last_base none before) x)
  pub in_last :
      (before : List PmemAddrTraceItem) (x : PmemAddrTraceItem) (after : List PmemAddrTraceItem)
      → t.items ≡ before ++ x ∷ after
      → is_base x ≡ true
      → NoBase after
      → (front : List PmemAddrPool) × (t'.pool_addrs
          ≡ front
            ++ record {
              pool_addr = length before;
              addresses = belonging (suc (length before)) x.addr after;
            }
              ∷ [])

-- Without a pool, nothing changes.
untouched :
    (i : ℕ) (items : List PmemAddrTraceItem)
    → pools_of i items ≡ []
    → (placed none items ≡ items) × (filled_first i items ≡ [])
unfolding pools_of placed filled_first
untouched i [] h = (refl, refl)
untouched i (item ∷ items) h = elim (Bool-cases (is_base item)) [
  | inl b ↦ let h' : fresh_pool i ∷ pools_of (suc i) items ≡ [] = rw b at h in cc
  | inr n ↦
      let (a, c) = untouched (suc i) items (rw n at h) in (rw n (ap (λ l. item ∷ l) a), rw n c)
]

no_pools : (pools : List PmemAddrPool) → has_no_pools pools ≡ true → pools ≡ []
no_pools [] h = refl
no_pools (p ∷ pools) h = cc

calculated :
    (t : PmemAddrTrace)
    → IsBuilt t
    → ((calculate_pool_offsets t).1.items ≡ placed none t.items)
      × ((calculate_pool_offsets t).1.pool_addrs ≡ filled_first 0 t.items)
unfolding calculate_pool_offsets
calculated t built = elim (Bool-cases (has_no_pools t.pool_addrs)) [
  | inl e ↦
      let gone = no_pools t.pool_addrs e in
      let (a, c) = untouched 0 t.items (sym built ∙ gone) in (rw e (sym a), rw e (gone ∙ sym c))
  | inr n ↦
      let r = offsets_from-first 0 t.items in
      let same : offsets_from 0 t.items t.pool_addrs none 0 false
          ≡ offsets_from 0 t.items (pools_of 0 t.items) none 0 false =
        ap (λ p. offsets_from 0 t.items p none 0 false) built in
      (rw n (ap (λ r. r.items) same ∙ r.items_are), rw n (ap (λ r. r.pools) same ∙ r.pools_are))
]

-- In a trace whose pools are those of its items (`IsBuilt`), `calculatePoolOffsets` gives each item
-- that is at or above the address of the last pool before it its distance from there, and leaves
-- every other item alone; and the last pool gets the places of exactly the items behind it that are
-- at or above its address, in their order.
pub calculate_pool_offsets-HasOffsets :
    (t : PmemAddrTrace) → IsBuilt t → HasOffsets t (calculate_pool_offsets t).1
calculate_pool_offsets-HasOffsets t built =
    let (items, pools) = calculated t built in
    record {
      at_item = λ before x after e.
          ap (λ l. get_elem? l (length before)) (items ∙ ap (placed none) e)
          ∙ placed-at none before x after;
      in_last = λ before x after e b none_after.
          let (front, h) = filled_first-last x b after none_after 0 before in
          let zero_first : 0 + length before ≡ length before = omega arith in
          (
            front,
            pools
                ∙ ap (filled_first 0) e
                ∙ h
                ∙ ap (λ n. front ++ filled_pool x b after none_after n ∷ []) zero_first,
          );
    }

-- A trace with one more item.
pools_of-snoc :
    (i : ℕ) (items : List PmemAddrTraceItem) (x : PmemAddrTraceItem)
    → pools_of i (items ++ x ∷ [])
      ≡ pools_of i items ++ (if is_base x then fresh_pool (i + length items) ∷ [] else [])
unfolding pools_of
pools_of-snoc i [] x =
    let e : i + 0 ≡ i = omega arith in
    elim (Bool-cases (is_base x)) [ inl b ↦ rw (b, e) | inr n ↦ rw n ]
pools_of-snoc i (y ∷ items) x =
    let e : suc i + length items ≡ i + suc (length items) = omega arith in
    let rest =
      pools_of-snoc (suc i) items x
      ∙ ap (λ n. pools_of (suc i) items ++ (if is_base x then fresh_pool n ∷ [] else [])) e in
    elim (Bool-cases (is_base y)) [
      | inl b ↦ rw b (ap (λ l. fresh_pool i ∷ l) rest)
      | inr n ↦ rw n rest
    ]

pub add_item-IsBuilt :
    (x : PmemAddrTraceItem) (t : PmemAddrTrace) → IsBuilt t → IsBuilt (add_item x t)
unfolding add_item
add_item-IsBuilt x t built =
    let e : 0 + length t.items ≡ length t.items = omega arith in
    let snoc : pools_of 0 (t.items ++ x ∷ [])
        ≡ pools_of 0 t.items ++ (if is_base x then fresh_pool (length t.items) ∷ [] else []) =
      pools_of-snoc 0 t.items x
      ∙ ap (λ n. pools_of 0 t.items ++ (if is_base x then fresh_pool n ∷ [] else [])) e in
    elim (Bool-cases (is_base x)) [
      | inl b ↦ rw b (ap (λ l. l ++ fresh_pool (length t.items) ∷ []) built ∙ sym (rw b at snoc))
      | inr n ↦ rw n (built ∙ sym (append-nil (pools_of 0 t.items)) ∙ sym (rw n at snoc))
    ]
