-- ===== src/Reactor/TxLog.antt =====
-- The table of versions by transaction (reactor/lib/checkpoint.c). `tx_insert` overwrites nothing.
pub mod Table
use arthas.Prelude.{
  ℕ, zero, suc, ◌+◌, ◌-◌, ◌%◌, ◌^◌, ℤ, pos, negsuc, Option, none, some, List, [], ◌∷◌, eq_ℤ, to_int,
  if◌then◌else◌, ◌>>=◌,
}
use arthas.Reactor.Types.{SingleData, TxNode, TxLog}
use arthas.Reactor.SeqLog.{at, put_at}

unfoldable pub tx_hash_code : ℕ → ℤ → Option ℤ
unfolding to_int
tx_hash_code zero key = none
tx_hash_code (suc n) (pos k) = some (to_int (k % suc n))
tx_hash_code (suc n) (negsuc k) = some (to_int ((2 ^ 64 - (2 ^ 64 - (k + 1)) % suc n) % 2 ^ 64))

-- The walk to the end of the chain changes nothing; the new node goes in front.
unfoldable pub tx_insert : TxLog → ℤ → SingleData → Option TxLog
unfolding tx_hash_code at put_at
tx_insert t key d = do
  p ← tx_hash_code t.size key
  chain ← at t.list p
  some (record t { list = put_at t.list p (record { tx_id = key; ordered_data = d } ∷ chain) })

unfoldable pub tx_find : ℤ → List TxNode → Option SingleData
tx_find key [] = none
tx_find key (n ∷ chain) = if eq_ℤ n.tx_id key then some n.ordered_data else tx_find key chain

-- A transaction that is not there gives an uninitialised structure with the identifier -1.
unfoldable pub tx_lookup : SingleData → TxLog → ℤ → Option SingleData
unfolding tx_hash_code at tx_find
tx_lookup uninit t key = do
  p ← tx_hash_code t.size key
  chain ← at t.list p
  some (elim (tx_find key chain) [ none ↦ record uninit { tx_id = negsuc 0 } | some d ↦ d ])
