-- ===== src/Reactor/Order/Transaction.antt =====
-- The table that `order_by_tx_id` (reactor/lib/checkpoint.c) fills.
use arthas.Prelude.{
  ℕ, zero, suc, ◌+◌, ◌≤◌, ◌<◌, ◌≡◌, refl, ℤ, pos, pos_part, Option, some, List, [], ◌∷◌, ◌++◌, All,
  arith, get_or, if◌then◌else◌, ◌==◌, ◌>>=◌, ◌∙◌, Option-cases, Bool-cases, inl, inr, ap,
}
use mathlib.Core.List.{reverse, reverse-append, append_assoc}
use arthas.Memory.{Heap}
use arthas.Reactor.Types.{SingleData, Node, CheckpointLog, max_versions}
use arthas.Reactor.TxLog.Table.{IsSizedTx, tx_versions, tx_insert-Adds}
use arthas.Reactor.Order.{
  TxOrdering, order_tx_version, order_tx_versions, order_tx_chain, version_count, checkpoint_nodes,
  order_by_tx_id,
}
use arthas.Reactor.Order.Copies.{
  IsShaped, HasSlots, SourcesBelow, Extends, Extends-refl, Extends-trans,
}
use arthas.Reactor.Order.Fill.{IsVersion, fill-IsVersion, IsVersion-Extends, IsVersion-earlier}
use arthas.Reactor.Order.Sequence.{Job, versions, jobs}

abbrev pub tx_of : Job → ℤ
tx_of (n, j) = get_or n.c_data.tx_id j (pos 0)

abbrev pub tx_key : Job → ℕ
tx_key w = pos_part (tx_of w)

-- The versions of a transaction.
unfoldable pub of_transaction : ℕ → List Job → List Job
of_transaction k [] = []
of_transaction k (w ∷ ws) =
    let rest = of_transaction k ws in if tx_key w == k then w ∷ rest else rest

-- The structures are the versions, in this order, as they stood in the memory `h`.
pub data Filed (h h' : Heap) : List Job → List SingleData → Type 0 where
  filed_nil : Filed h h' [] []
  filed_cons :
      {w : Job} {d : SingleData} {ws : List Job} {ds : List SingleData}
      → IsVersion w.0 w.1 h d h'
      → Filed h h' ws ds
      → Filed h h' (w ∷ ws) (d ∷ ds)

tx_run : List Job → TxOrdering → Option TxOrdering
tx_run [] o = some o
tx_run ((n, j) ∷ ws) o = order_tx_version n j o >>= tx_run ws

tx_run-append :
    (ws vs : List Job) (o : TxOrdering) → tx_run (ws ++ vs) o ≡ (tx_run ws o >>= tx_run vs)
unfolding tx_run
tx_run-append [] vs o = refl
tx_run-append ((n, j) ∷ ws) vs o = elim (Option-cases (order_tx_version n j o)) [
  | inl e ↦ rw e
  | inr (o', e) ↦ rw e (tx_run-append ws vs o')
]

versions-tx_run :
    (n : Node) (count j : ℕ) (o : TxOrdering)
    → order_tx_versions n count j o ≡ tx_run (versions n count j) o
unfolding order_tx_versions tx_run versions
versions-tx_run n zero j o = refl
versions-tx_run n (suc count) j o = elim (Option-cases (order_tx_version n j o)) [
  | inl e ↦ rw e
  | inr (o', e) ↦ rw e (versions-tx_run n count (j + 1) o')
]

order_tx_chain-tx_run : (ns : List Node) (o : TxOrdering) → order_tx_chain ns o ≡ tx_run (jobs ns) o
unfolding order_tx_chain jobs tx_run
order_tx_chain-tx_run [] o = refl
order_tx_chain-tx_run (n ∷ ns) o =
    rw (tx_run-append, versions-tx_run)
      (elim (Option-cases (tx_run (versions n (version_count n) 0) o)) [
        | inl e ↦ rw e
        | inr (o', e) ↦ rw e (order_tx_chain-tx_run ns o')
      ])

-- The version is within the arrays, its bytes and those of the older versions lie below `b`, and
-- its transaction is not negative.
pub record IsTxJob (b : ℕ) (w : Job) : Type 0 where
  pub shaped : IsShaped w.0.c_data
  pub in_range : w.1 < max_versions
  pub below : SourcesBelow w.0.c_data (suc w.1) b
  pub numbered : tx_of w ≡ pos (tx_key w)

pub record IsReadyTx (o : TxOrdering) : Type 0 where
  pub sized : IsSizedTx o.table
  pub slots : HasSlots o.ordered_data

-- One round.
order_tx_version-Adds :
    (w : Job) (o : TxOrdering)
    → IsReadyTx o
    → IsTxJob o.heap.brk w
    → (o' : TxOrdering) × (order_tx_version w.0 w.1 o ≡ some o')
      × IsReadyTx o'
      × Extends o.heap o'.heap
      × (d : SingleData) × IsVersion w.0 w.1 o.heap d o'.heap
      × ((k : ℕ)
          → tx_versions o'.table k
            ≡ (if tx_key w == k then d ∷ tx_versions o.table k else tx_versions o.table k))
unfolding order_tx_version
order_tx_version-Adds (n, j) o ready job =
    let (d, h', ran, v, ext) =
      fill-IsVersion n job.shaped j o.ordered_data o.heap ready.slots job.in_range job.below in
    let (table, inserted, sized, _, reads) = tx_insert-Adds o.table ready.sized (tx_key (n, j)) d in
    (
      record { ordered_data = d; heap = h'; table = table },
      rw (ran, v.tx_id, job.numbered, inserted),
      record { sized = sized; slots = v.shape },
      ext,
      d,
      v,
      reads,
    )

IsTxJob-grows : (b b' : ℕ) → b ≤ b' → (ws : List Job) → All (IsTxJob b) ws → All (IsTxJob b') ws
IsTxJob-grows b b' l [] js = tt
IsTxJob-grows b b' l (w ∷ ws) (j, js) = (
  record {
    shaped = j.shaped;
    in_range = j.in_range;
    below = λ i h. omega (arith, j.below i h);
    numbered = j.numbered;
  },
  IsTxJob-grows b b' l ws js,
)

All-of_transaction :
    (P : Job → Type 0) (k : ℕ) (ws : List Job) → All P ws → All P (of_transaction k ws)
unfolding of_transaction
All-of_transaction P k [] a = tt
All-of_transaction P k (w ∷ ws) a = elim (Bool-cases (tx_key w == k)) [
  | inl e ↦ rw (e, of_transaction) (a.0, All-of_transaction P k ws a.1)
  | inr e ↦ rw (e, of_transaction) (All-of_transaction P k ws a.1)
]

Filed-earlier :
    {h h1 h' : Heap} {ws : List Job} {ds : List SingleData}
    → Extends h h1
    → All (IsTxJob h.brk) ws
    → Filed h1 h' ws ds
    → Filed h h' ws ds
Filed-earlier e js filed_nil = filed_nil
Filed-earlier e js (filed_cons v f) =
    filed_cons (IsVersion-earlier _ _ _ _ _ _ js.0.below e v) (Filed-earlier e js.1 f)

-- The versions of the transaction `k` after the jobs, in front of those before.
abbrev pub Files : TxOrdering → TxOrdering → List Job → ℕ → Type 0
Files o o' ws k =
    (ds : List SingleData) × Filed o.heap o'.heap (of_transaction k ws) ds
    × (tx_versions o'.table k ≡ reverse ds ++ tx_versions o.table k)

Files-cons :
    (o o1 o' : TxOrdering) (w : Job) (ws : List Job) (k : ℕ) (d : SingleData)
    → IsVersion w.0 w.1 o.heap d o'.heap
    → Extends o.heap o1.heap
    → All (IsTxJob o.heap.brk) ws
    → (tx_versions o1.table k
        ≡ (if tx_key w == k then d ∷ tx_versions o.table k else tx_versions o.table k))
    → Files o1 o' ws k
    → Files o o' (w ∷ ws) k
unfolding of_transaction
Files-cons o o1 o' w ws k d v ext js step (ds, f, reads) =
    let rest = Filed-earlier ext (All-of_transaction (IsTxJob o.heap.brk) k ws js) f in
    elim (Bool-cases (tx_key w == k)) [
      | inl e ↦ (
        d ∷ ds,
        rw (e, of_transaction) (filed_cons v rest),
        reads ∙ ap (λ t. reverse ds ++ t) (step ∙ rw e) ∙ turned d ds (tx_versions o.table k),
      )
      | inr e ↦ (ds, rw (e, of_transaction) rest, reads ∙ ap (λ t. reverse ds ++ t) (step ∙ rw e))
    ]
  where
    turned :
        (x : SingleData) (xs ys : List SingleData) → reverse xs ++ x ∷ ys ≡ reverse (x ∷ xs) ++ ys
    turned x xs ys = rw (reverse-append (x ∷ []) xs, append_assoc)

tx_run-Files :
    (ws : List Job) (o : TxOrdering)
    → IsReadyTx o
    → All (IsTxJob o.heap.brk) ws
    → (o' : TxOrdering) × (tx_run ws o ≡ some o')
      × IsReadyTx o'
      × Extends o.heap o'.heap
      × ((k : ℕ) → Files o o' ws k)
unfolding tx_run of_transaction
tx_run-Files [] o ready js = (o, refl, ready, Extends-refl o.heap, λ k. ([], filed_nil, refl))
tx_run-Files (w ∷ ws) o ready (j, js) =
    let (o1, stepped, ready1, ext1, d, v, reads1) = order_tx_version-Adds w o ready j in
    let (o', ran, ready', ext, files) =
      tx_run-Files ws o1 ready1 (IsTxJob-grows _ _ ext1.grows ws js) in
    (
      o',
      rw stepped ran,
      ready',
      Extends-trans o.heap o1.heap o'.heap ext1 ext,
      λ k.
          Files-cons o o1 o' w ws k d (IsVersion-Extends w.0 w.1 o.heap o1.heap o'.heap d v ext)
            ext1 js (reads1 k) (files k),
    )

-- When the slots of the checkpoint log can be read, the arrays of all structures have three slots,
-- and its versions lie within the arrays of their nodes and below the unused memory and carry
-- transactions that are not negative, `order_by_tx_id` on a table by transaction in shape
-- (`IsSizedTx`) runs to the end, puts the versions of each transaction in front of those that were
-- there, the last one first, with copies of their bytes and of the bytes of the older versions, and
-- writes to unused memory only.
pub order_by_tx_id-Files :
    (c : CheckpointLog) (ns : List Node) (o : TxOrdering)
    → checkpoint_nodes c ≡ some ns
    → IsReadyTx o
    → All (IsTxJob o.heap.brk) (jobs ns)
    → (o' : TxOrdering) × (order_by_tx_id c o ≡ some o')
      × IsReadyTx o'
      × Extends o.heap o'.heap
      × ((k : ℕ) → Files o o' (jobs ns) k)
unfolding order_by_tx_id
order_by_tx_id-Files c ns o listed ready js =
    rw (listed, order_tx_chain-tx_run) (tx_run-Files (jobs ns) o ready js)
