-- ===== src/Analyzer/AddrTrace/Pools.antt =====
-- The offsets of the addresses in their pools (`calculatePoolOffsets` of
-- analyzer/lib/Instrument/PmemAddrTrace.cpp).
pub mod Places
pub mod Last
use arthas.Prelude.{
  ℕ, zero, suc, ◌+◌, ◌-◌, Bool, true, false, ◌||◌, ◌==◌, leb, Option, none, some, List, [], ◌∷◌,
  ◌++◌, if◌then◌else◌,
}
use mathlib.Core.Option
use arthas.Analyzer.AddrTrace.{PmemAddrTraceItem, PmemAddrPool, PmemAddrTrace}

-- The item is a pool's address, or a mapped file's.
abbrev pub is_base : PmemAddrTraceItem → Bool
is_base item = item.is_pool || item.is_mmap

-- The first pool whose address is the item at place `i`.
unfoldable pub find_pool : ℕ → List PmemAddrPool → Option ℕ
find_pool i [] = none
find_pool i (p ∷ pools) =
    let rest = Option.map suc (find_pool i pools) in if p.pool_addr == i then some 0 else rest

-- `last_pool->addresses.push_back(item)`
unfoldable pub push_address : ℕ → ℕ → List PmemAddrPool → List PmemAddrPool
push_address i j [] = []
push_address i zero (p ∷ pools) = record p { addresses = p.addresses ++ i ∷ [] } ∷ pools
push_address i (suc j) (p ∷ pools) = p ∷ push_address i j pools

-- What the loop returns, and leaves in the items and the pools.
pub record Offsets : Type 0 where
  pub obtained : Bool
  pub items : List PmemAddrTraceItem
  pub pools : List PmemAddrPool

abbrev pub behind : PmemAddrTraceItem → Offsets → Offsets
behind item r = record r { items = item ∷ r.items }

-- The loop from the item at place `i` on.
unfoldable pub offsets_from :
    ℕ → List PmemAddrTraceItem → List PmemAddrPool → Option ℕ → ℕ → Bool → Offsets
offsets_from i [] pools last_pool last_pool_addr obtained = record {
  obtained = obtained;
  items = [];
  pools = pools;
}
offsets_from i (item ∷ items) pools last_pool last_pool_addr obtained =
    if is_base item
    then elim (find_pool i pools) [
      | none ↦ record { obtained = false; items = item ∷ items; pools = pools }
      | some j ↦ behind item (offsets_from (suc i) items pools (some j) item.addr obtained)
    ]
    else elim last_pool [
      | none ↦ behind item (offsets_from (suc i) items pools none last_pool_addr obtained)
      | some j ↦
          if leb last_pool_addr item.addr
          then behind (record item { pool_offset = item.addr - last_pool_addr })
              (offsets_from (suc i) items (push_address i j pools) (some j) last_pool_addr true)
          else behind item (offsets_from (suc i) items pools (some j) last_pool_addr obtained)
    ]

abbrev pub has_no_pools : List PmemAddrPool → Bool
has_no_pools [] = true
has_no_pools (p ∷ pools) = false

unfoldable pub calculate_pool_offsets : PmemAddrTrace → Bool × PmemAddrTrace
calculate_pool_offsets t =
    let r = offsets_from 0 t.items t.pool_addrs none 0 false in
    if has_no_pools t.pool_addrs
    then (false, t)
    else (r.obtained, record t { items = r.items; pool_addrs = r.pools })
