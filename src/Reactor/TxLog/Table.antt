-- ===== src/Reactor/TxLog/Table.antt =====
-- The table by transaction (reactor/lib/checkpoint.c) as a map to lists of versions.
use arthas.Prelude.{
  ℕ, zero, suc, ◌%◌, ◌^◌, ◌≤◌, ◌<◌, ◌≡◌, ◌≢◌, refl, ap, sym, ◌∙◌, ℤ, pos, negsuc, inl, inr, Option,
  none, some, List, [], ◌∷◌, arith, eq_ℤ, eq_ℤ_iff, ◌==◌, ==_iff, to_int-pos, get_elem?, set,
  length, length-set, get_elem?-lt, get_elem?-set_self, get_elem?-set_ne, if◌then◌else◌, Bool-cases,
}
use arthas.Reactor.Types.{SingleData, TxNode, TxLog}
use arthas.Reactor.SeqLog.{at, put_at}
use arthas.Reactor.TxLog.{tx_hash_code, tx_insert, tx_find, tx_lookup}

-- The table has a slot for each hash.
pub record IsSizedTx (t : TxLog) : Type 0 where
  pub not_empty : 0 < t.size
  pub fits_int : t.size < 2 ^ 31
  pub slots : t.size ≤ length t.list

-- The versions of a transaction in a chain.
unfoldable pub of_tx : ℤ → List TxNode → List SingleData
of_tx key [] = []
of_tx key (n ∷ chain) =
    let rest = of_tx key chain in if eq_ℤ n.tx_id key then n.ordered_data ∷ rest else rest

-- The chain of a key, empty outside the slots.
abbrev or_empty : Option (List TxNode) → List TxNode
or_empty none = []
or_empty (some chain) = chain

abbrev tx_chain : TxLog → ℕ → List TxNode
tx_chain t k = or_empty (get_elem? t.list (k % t.size))

-- The versions of a transaction in the table.
unfoldable pub tx_versions : TxLog → ℕ → List SingleData
unfolding of_tx
tx_versions t k = of_tx (pos k) (tx_chain t k)

abbrev pub first_of : SingleData → List SingleData → SingleData
first_of missing [] = missing
first_of missing (d ∷ ds) = d

hash-pos : (n k : ℕ) → 0 < n → n < 2 ^ 31 → tx_hash_code n (pos k) ≡ some (pos (k % n))
unfolding tx_hash_code
hash-pos zero k h fits = absurd (omega arith)
hash-pos (suc n) k h fits = rw (to_int-pos (k % suc n) (omega arith))

find-first :
    (u : SingleData) (key : ℤ) (chain : List TxNode)
    → elim (tx_find key chain) [ none ↦ u | some d ↦ d ] ≡ first_of u (of_tx key chain)
unfolding tx_find of_tx
find-first u key [] = refl
find-first u key (n ∷ chain) = elim (Bool-cases (eq_ℤ n.tx_id key)) [
  | inl e ↦ rw e
  | inr e ↦ rw e (find-first u key chain)
]

of_tx-cons :
    (k j : ℕ) (d : SingleData) (chain : List TxNode)
    → of_tx (pos j) (record { tx_id = pos k; ordered_data = d } ∷ chain)
      ≡ (if k == j then d ∷ of_tx (pos j) chain else of_tx (pos j) chain)
unfolding of_tx
of_tx-cons k j d chain = ground (arith, eq_ℤ_iff (pos k) (pos j), ==_iff k j)

module _ (t : TxLog) (sized : IsSizedTx t) where
  slot-lt : (k : ℕ) → k % t.size < length t.list
  slot-lt k = omega (arith, sized.not_empty, sized.slots)

  chain-at : (k : ℕ) → get_elem? t.list (k % t.size) ≡ some (tx_chain t k)
  chain-at k =
      let (chain, e) = get_elem?-lt t.list (k % t.size) (slot-lt k) in
      e ∙ ap (λ o. some (or_empty o)) (sym e)

  -- On a table by transaction in shape (`IsSizedTx`), and with a transaction that is not negative,
  -- `tx_lookup` returns the first of the versions of the transaction, the one that `tx_insert` put
  -- there last, and a structure with the transaction -1 if there is none.
  pub tx_lookup-first :
      (u : SingleData) (k : ℕ)
      → tx_lookup u t (pos k) ≡ some (first_of (record u { tx_id = negsuc 0 }) (tx_versions t k))
  unfolding tx_lookup at tx_versions
  tx_lookup-first u k = rw (
    hash-pos t.size k sized.not_empty sized.fits_int,
    chain-at k,
    find-first (record u { tx_id = negsuc 0 }) (pos k) (tx_chain t k),
  )

  -- The table with one more version in front of the chain of `k`.
  abbrev grown : ℕ → SingleData → TxLog
  grown k d = record t {
    list = set t.list (k % t.size) (record { tx_id = pos k; ordered_data = d } ∷ tx_chain t k);
  }

  grown-same :
      (k j : ℕ) (d : SingleData)
      → k % t.size ≡ j % t.size
      → tx_chain (grown k d) j ≡ record { tx_id = pos k; ordered_data = d } ∷ tx_chain t j
  grown-same k j d same = rw (← same) (rw (get_elem?-set_self t.list (k % t.size) _ (slot-lt k)))

  grown-other :
      (k j : ℕ) (d : SingleData) → k % t.size ≢ j % t.size → tx_chain (grown k d) j ≡ tx_chain t j
  grown-other k j d differ = rw (get_elem?-set_ne t.list (k % t.size) (j % t.size) _ differ)

  grown-versions :
      (k j : ℕ) (d : SingleData)
      → tx_versions (grown k d) j ≡ (if k == j then d ∷ tx_versions t j else tx_versions t j)
  unfolding tx_versions
  grown-versions k j d = elim (Bool-cases (k % t.size == j % t.size)) [
    | inl e ↦
        let same = (==_iff (k % t.size) (j % t.size)).0 e in
        rw (grown-same k j d same) (of_tx-cons k j d (tx_chain t j))
    | inr e ↦
        let differ : k % t.size ≢ j % t.size = ground arith in
        rw (grown-other k j d differ) (ground (arith, ==_iff k j))
  ]

  -- On a table by transaction in shape (`IsSizedTx`), and with a transaction that is not negative,
  -- `tx_insert` succeeds, keeps the table in shape, puts the version in front of those of its
  -- transaction, and leaves the versions of every other transaction alone.
  pub tx_insert-Adds :
      (k : ℕ) (d : SingleData)
      → (t' : TxLog) × (tx_insert t (pos k) d ≡ some t')
        × IsSizedTx t'
        × (t'.size ≡ t.size)
        × ((j : ℕ) → tx_versions t' j ≡ (if k == j then d ∷ tx_versions t j else tx_versions t j))
  unfolding tx_insert at put_at
  tx_insert-Adds k d = (
    grown k d,
    rw (hash-pos t.size k sized.not_empty sized.fits_int, chain-at k),
    record {
      not_empty = sized.not_empty;
      fits_int = sized.fits_int;
      slots = rw length-set sized.slots;
    },
    refl,
    λ j. grown-versions k j d,
  )
