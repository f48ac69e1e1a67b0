-- ===== src/Reactor/Offsets.antt =====
-- The addresses of the last pool of the trace in the mapping that `react` opened, and the list of
-- them (reactor/lib/core.cpp). The constructor's allocations are left out.
use arthas.Prelude.{
  ℕ, suc, ◌+◌, ◌-◌, ◌%◌, ◌^◌, ◌≡◌, refl, true, false, leb, Option, none, some, List, [], ◌∷◌, ◌++◌,
  map, length, get_elem?, length-append, arith, ap, sym, subst, ◌∙◌, if◌then◌else◌, ◌>>=◌,
  Bool-cases, inl, inr,
}
use mathlib.Core.List.{append_assoc}
use arthas.Analyzer.AddrTrace.{PmemAddrTraceItem, PmemAddrPool, PmemAddrTrace}
use arthas.Analyzer.AddrTrace.Pools.{is_base, calculate_pool_offsets}
use arthas.Analyzer.AddrTrace.Pools.Places.{put_offset}
use arthas.Analyzer.AddrTrace.Pools.Last.{
  IsBuilt, last_base, belonging, NoBase, HasOffsets, calculate_pool_offsets-HasOffsets,
}
use arthas.Reactor.Addresses.{AddrOffset}

-- `pool_addrs().back()`, which is not there when there is no pool.
unfoldable pub last_pool : List PmemAddrPool → Option PmemAddrPool
last_pool [] = none
last_pool (p ∷ []) = some p
last_pool (p ∷ q ∷ pools) = last_pool (q ∷ pools)

-- The body of the loop for one item.
abbrev pub addr_offset : ℕ → PmemAddrTraceItem → AddrOffset
addr_offset pop item = record {
  offset = item.pool_offset;
  address = item.addr;
  pmem_address = (pop + item.pool_offset) % 2 ^ 64;
}

unfoldable pub fill_offsets : ℕ → List PmemAddrTraceItem → List ℕ → Option (List AddrOffset)
fill_offsets pop items [] = some []
fill_offsets pop items (j ∷ places) = do
  item ← get_elem? items j
  rest ← fill_offsets pop items places
  some (addr_offset pop item ∷ rest)

-- None when an access is undefined; `some none` when `react` returns false as the last pool has no
-- addresses.
unfoldable pub last_pool_offsets : ℕ → PmemAddrTrace → Option (Option (List AddrOffset))
unfolding last_pool
last_pool_offsets pop t = do
  p ← last_pool t.pool_addrs
  filled ← fill_offsets pop t.items p.addresses
  some (elim filled [ [] ↦ none | a ∷ rest ↦ some (a ∷ rest) ])

-- The items at the base's address or above.
abbrev pub covered : ℕ → List PmemAddrTraceItem → List PmemAddrTraceItem
covered base [] = []
covered base (y ∷ after) = if leb base y.addr then y ∷ covered base after else covered base after

-- An address of the old mapping, and where it is in the new one.
abbrev pub moved_from : ℕ → ℕ → PmemAddrTraceItem → AddrOffset
moved_from pop base y = record {
  offset = y.addr - base;
  address = y.addr;
  pmem_address = (pop + (y.addr - base)) % 2 ^ 64;
}

last_pool-snoc :
    (front : List PmemAddrPool) (p : PmemAddrPool) → last_pool (front ++ p ∷ []) ≡ some p
unfolding last_pool
last_pool-snoc [] p = refl
last_pool-snoc (q ∷ []) p = refl
last_pool-snoc (q ∷ r ∷ front) p = last_pool-snoc (r ∷ front) p

last_base-none :
    (last : Option ℕ) (items : List PmemAddrTraceItem) → NoBase items → last_base last items ≡ last
last_base-none last [] a = refl
last_base-none last (y ∷ items) (n, a) = rw n (last_base-none last items a)

last_base-behind :
    (last : Option ℕ) (before : List PmemAddrTraceItem) (x : PmemAddrTraceItem)
    (mid : List PmemAddrTraceItem)
    → is_base x ≡ true
    → NoBase mid
    → last_base last (before ++ x ∷ mid) ≡ some x.addr
last_base-behind last [] x mid b a =
    let h : (if is_base x then some x.addr else last) ≡ some x.addr = rw b in
    ap (λ l. last_base l mid) h ∙ last_base-none (some x.addr) mid a
last_base-behind last (y ∷ before) x mid b a = last_base-behind _ before x mid b a

NoBase-snoc :
    (mid : List PmemAddrTraceItem) (y : PmemAddrTraceItem)
    → NoBase mid
    → is_base y ≡ false
    → NoBase (mid ++ y ∷ [])
NoBase-snoc [] y a n = (n, tt)
NoBase-snoc (z ∷ mid) y (m, a) n = (m, NoBase-snoc mid y a n)

module _ (pop : ℕ) (t t' : PmemAddrTrace) (has : HasOffsets t t') (before : List PmemAddrTraceItem)
    (x : PmemAddrTraceItem) (b : is_base x ≡ true) where
  -- The item behind the last pool's address.
  item-placed :
      (mid : List PmemAddrTraceItem) (y : PmemAddrTraceItem) (after : List PmemAddrTraceItem)
      → t.items ≡ before ++ x ∷ (mid ++ y ∷ after)
      → NoBase mid
      → is_base y ≡ false
      → get_elem? t'.items (suc (length before) + length mid) ≡ some (put_offset (some x.addr) y)
  item-placed mid y after e a n =
      let front = before ++ x ∷ mid in
      let l : length front ≡ suc (length before) + length mid =
        let z = length-append before (x ∷ mid) in omega (arith, z) in
      let e' : t.items ≡ front ++ y ∷ after = e ∙ sym (append_assoc before (x ∷ mid) (y ∷ after)) in
      subst (λ j. get_elem? t'.items j ≡ some (put_offset (some x.addr) y)) l
        (has.at_item front y after e'
          ∙ rw n (ap (λ o. some (put_offset o y)) (last_base-behind none before x mid b a)))

  fill_offsets-belonging :
      (mid after : List PmemAddrTraceItem)
      → t.items ≡ before ++ x ∷ (mid ++ after)
      → NoBase mid
      → NoBase after
      → fill_offsets pop t'.items (belonging (suc (length before) + length mid) x.addr after)
        ≡ some (map (moved_from pop x.addr) (covered x.addr after))
  unfolding fill_offsets belonging
  fill_offsets-belonging mid [] e a c = refl
  fill_offsets-belonging mid (y ∷ after) e a (n, c) =
      let at = item-placed mid y after e a n in
      let k : suc (length before) + length (mid ++ y ∷ [])
          ≡ suc (suc (length before) + length mid) =
        let z = length-append mid (y ∷ []) in omega (arith, z) in
      let rest =
        fill_offsets-belonging (mid ++ y ∷ []) after
          (e ∙ ap (λ l. before ++ x ∷ l) (sym (append_assoc mid (y ∷ []) after)))
          (NoBase-snoc mid y a n) c in
      let rest' =
        subst
          (λ j.
            fill_offsets pop t'.items (belonging j x.addr after)
            ≡ some (map (moved_from pop x.addr) (covered x.addr after)))
          k rest in
      elim (Bool-cases (leb x.addr y.addr)) [
        | inl above ↦ rw above (rw (at, above) (rw rest'))
        | inr below ↦ rw below rest'
      ]

-- When a trace whose pools are those of its items (`IsBuilt`) has a last pool with an item behind
-- it at or above its address, then after `calculatePoolOffsets` the list that `react` fills has,
-- for exactly these items in their order, the distance from the address of the pool, which is not
-- negative, the address, and the place at this distance behind the start of the new mapping, in
-- 64-bit arithmetic.
pub last_pool_offsets-moved :
    (pop : ℕ) (t : PmemAddrTrace) (before : List PmemAddrTraceItem) (x y : PmemAddrTraceItem)
    (after ys : List PmemAddrTraceItem)
    → IsBuilt t
    → t.items ≡ before ++ x ∷ after
    → is_base x ≡ true
    → NoBase after
    → covered x.addr after ≡ y ∷ ys
    → last_pool_offsets pop (calculate_pool_offsets t).1
      ≡ some (some (map (moved_from pop x.addr) (y ∷ ys)))
unfolding last_pool_offsets
last_pool_offsets-moved pop t before x y after ys built e b none_after cov =
    let t' = (calculate_pool_offsets t).1 in
    let has = calculate_pool_offsets-HasOffsets t built in
    let (front, h) = has.in_last before x after e b none_after in
    let start : suc (length before) + 0 ≡ suc (length before) = omega arith in
    let filled =
      subst
        (λ j.
          fill_offsets pop t'.items (belonging j x.addr after)
          ≡ some (map (moved_from pop x.addr) (covered x.addr after)))
        start (fill_offsets-belonging pop t t' has before x b [] after e tt none_after) in
    rw h (rw (last_pool-snoc front _) (rw (filled, cov)))
