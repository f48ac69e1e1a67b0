-- ===== src/Analyzer/AddrTrace/Pools/Places.antt =====
-- The loop of `calculatePoolOffsets`, item by item
-- (analyzer/lib/Instrument/PmemAddrTrace.cpp).
use arthas.Prelude.{
  ℕ, suc, ◌-◌, ◌<◌, ◌≡◌, refl, Bool, true, false, ◌==◌, leb, Option, none, some, List, [], ◌∷◌,
  ◌++◌, All, All-append, length, if◌then◌else◌, arith, ap, sym, ◌∙◌, Bool-cases, inl, inr,
}
use mathlib.Core.List.{append_assoc}
use arthas.Analyzer.AddrTrace.{PmemAddrTraceItem, PmemAddrPool}
use arthas.Analyzer.AddrTrace.Pools.{is_base, find_pool, push_address, Offsets, offsets_from}

abbrev pub fresh_pool : ℕ → PmemAddrPool
fresh_pool i = record { pool_addr = i; addresses = [] }

-- The pools that `add` makes for the items from the place `i` on.
unfoldable pub pools_of : ℕ → List PmemAddrTraceItem → List PmemAddrPool
pools_of i [] = []
pools_of i (item ∷ items) =
    let rest = pools_of (suc i) items in if is_base item then fresh_pool i ∷ rest else rest

-- An item behind a pool's address, if there was one before.
abbrev pub put_offset : Option ℕ → PmemAddrTraceItem → PmemAddrTraceItem
put_offset none item = item
put_offset (some base) item =
    if leb base item.addr then record item { pool_offset = item.addr - base } else item

-- All items, behind a last pool's address.
unfoldable pub placed : Option ℕ → List PmemAddrTraceItem → List PmemAddrTraceItem
placed last [] = []
placed last (item ∷ items) =
    let next = placed (some item.addr) items in
    let same = placed last items in
    if is_base item then item ∷ next else put_offset last item ∷ same

-- The pools from the last one on, with the addresses that belong to them.
unfoldable pub filled : PmemAddrPool → ℕ → ℕ → List PmemAddrTraceItem → List PmemAddrPool
filled q base i [] = q ∷ []
filled q base i (item ∷ items) =
    let next = q ∷ filled (fresh_pool i) item.addr (suc i) items in
    let more = filled (record q { addresses = q.addresses ++ i ∷ [] }) base (suc i) items in
    let same = filled q base (suc i) items in
    if is_base item then next else (if leb base item.addr then more else same)

abbrev IsBefore : ℕ → PmemAddrPool → Type 0
IsBefore i p = p.pool_addr < i

pub find_pool-behind :
    (i : ℕ) (before pools : List PmemAddrPool)
    → All (IsBefore i) before
    → find_pool i (before ++ fresh_pool i ∷ pools) ≡ some (length before)
unfolding find_pool
find_pool-behind i [] pools a = let e : i == i ≡ true = ground arith in rw e
find_pool-behind i (p ∷ before) pools (lt, a) =
    let e : p.pool_addr == i ≡ false = ground arith in rw (e, find_pool-behind i before pools a)

push_address-last :
    (i : ℕ) (before : List PmemAddrPool) (q : PmemAddrPool) (pools : List PmemAddrPool)
    → push_address i (length before) (before ++ q ∷ pools)
      ≡ before ++ record q { addresses = q.addresses ++ i ∷ [] } ∷ pools
unfolding push_address
push_address-last i [] q pools = refl
push_address-last i (p ∷ before) q pools = ap (λ l. p ∷ l) (push_address-last i before q pools)

IsBefore-suc : (i : ℕ) (ps : List PmemAddrPool) → All (IsBefore i) ps → All (IsBefore (suc i)) ps
IsBefore-suc i [] a = tt
IsBefore-suc i (p ∷ ps) (lt, a) = (omega arith, IsBefore-suc i ps a)

-- What the loop leaves.
pub record IsLeft (last : Option ℕ) (items : List PmemAddrTraceItem) (pools : List PmemAddrPool)
    (r : Offsets) : Type 0 where
  pub items_are : r.items ≡ placed last items
  pub pools_are : r.pools ≡ pools

pub offsets_from-behind :
    (i : ℕ) (items : List PmemAddrTraceItem) (before : List PmemAddrPool) (q : PmemAddrPool)
    (base : ℕ) (obtained : Bool)
    → All (IsBefore i) before
    → IsBefore i q
    → IsLeft
        (some base)
        items
        (before ++ filled q base i items)
        (offsets_from i items (before ++ q ∷ pools_of i items) (some (length before)) base obtained)
unfolding offsets_from pools_of placed filled
offsets_from-behind i [] before q base obtained a lt = record { items_are = refl; pools_are = refl }
offsets_from-behind i (item ∷ items) before q base obtained a lt =
    let earlier = IsBefore-suc i before a in
    elim (Bool-cases (is_base item)) [
      | inl b ↦
          let here = before ++ q ∷ [] in
          let rest = pools_of (suc i) items in
          let shift : before ++ q ∷ fresh_pool i ∷ rest ≡ here ++ fresh_pool i ∷ rest =
            sym (append_assoc before (q ∷ []) (fresh_pool i ∷ rest)) in
          let all : All (IsBefore i) here = All-append (IsBefore i) before (q ∷ []) a (lt, tt) in
          let found = find_pool-behind i here rest all in
          let r =
            offsets_from-behind (suc i) items here (fresh_pool i) item.addr obtained
              (IsBefore-suc i here all) (omega arith) in
          rw b (
            rw shift (
              rw found (record {
                items_are = rw b (rw shift (ap (λ l. item ∷ l) r.items_are));
                pools_are = rw b (
                    rw shift (
                      r.pools_are
                      ∙ append_assoc before (q ∷ [])
                          (filled (fresh_pool i) item.addr (suc i) items)));
              })))
      | inr n ↦ elim (Bool-cases (leb base item.addr)) [
        | inl above ↦
            let q' = record q { addresses = q.addresses ++ i ∷ [] } in
            let r = offsets_from-behind (suc i) items before q' base true earlier (omega arith) in
            rw (n, above, push_address-last i before q (pools_of (suc i) items))
              (record {
                items_are =
                    rw (n, above)
                      (ap (λ l. record item { pool_offset = item.addr - base } ∷ l) r.items_are);
                pools_are = r.pools_are;
              })
        | inr below ↦
            let r =
              offsets_from-behind (suc i) items before q base obtained earlier (omega arith) in
            rw (n, below)
              (record {
                items_are = rw (n, below) (ap (λ l. item ∷ l) r.items_are);
                pools_are = r.pools_are;
              })
      ]
    ]
