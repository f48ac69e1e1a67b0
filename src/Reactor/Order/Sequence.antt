-- ===== src/Reactor/Order/Sequence.antt =====
-- The table that `order_by_sequence_num` (reactor/lib/checkpoint.c) fills.
use arthas.Prelude.{
  ℕ, zero, suc, ◌+◌, ◌≤◌, ◌<◌, ◌≡◌, ◌≢◌, refl, ℤ, pos, pos_part, Option, some, List, [], ◌∷◌, ◌++◌,
  All, arith, get_or, length, if◌then◌else◌, ◌==◌, ==_iff, ◌>>=◌, ◌∙◌, Option-cases, inl, inr,
}
use arthas.Reactor.Types.{SingleData, Node, CheckpointLog, max_versions}
use arthas.Reactor.SeqLog.Table.{IsSized, view, insert-Writes}
use arthas.Reactor.SeqLog.Placed.{IsPlaced, insert-IsPlaced}
use arthas.Reactor.Order.{
  Ordering, order_version, order_versions, order_chain, version_count, checkpoint_nodes,
  order_by_sequence_num,
}
use arthas.Reactor.Order.Copies.{
  IsShaped, HasSlots, SourcesBelow, Extends, Extends-refl, Extends-trans,
}
use arthas.Reactor.Order.Fill.{IsVersion, fill-IsVersion, IsVersion-Extends, IsVersion-earlier}

-- A node and one of its versions.
abbrev pub Job : Type 0
Job = Node × ℕ

abbrev pub seq_of : Job → ℤ
seq_of (n, j) = get_or n.c_data.sequence_number j (pos 0)

abbrev pub key_of : Job → ℕ
key_of w = pos_part (seq_of w)

unfoldable pub versions : Node → ℕ → ℕ → List Job
versions n zero j = []
versions n (suc count) j = (n, j) ∷ versions n count (j + 1)

-- All versions of all nodes, in the order of the loops.
unfoldable pub jobs : List Node → List Job
unfolding versions
jobs [] = []
jobs (n ∷ chain) = versions n (version_count n) 0 ++ jobs chain

run : List Job → Ordering → Option Ordering
run [] o = some o
run ((n, j) ∷ ws) o = order_version n j o >>= run ws

run-append : (ws vs : List Job) (o : Ordering) → run (ws ++ vs) o ≡ (run ws o >>= run vs)
unfolding run
run-append [] vs o = refl
run-append ((n, j) ∷ ws) vs o = elim (Option-cases (order_version n j o)) [
  | inl e ↦ rw e
  | inr (o', e) ↦ rw e (run-append ws vs o')
]

versions-run :
    (n : Node) (count j : ℕ) (o : Ordering)
    → order_versions n count j o ≡ run (versions n count j) o
unfolding order_versions run versions
versions-run n zero j o = refl
versions-run n (suc count) j o = elim (Option-cases (order_version n j o)) [
  | inl e ↦ rw e
  | inr (o', e) ↦ rw e (versions-run n count (j + 1) o')
]

order_chain-run : (ns : List Node) (o : Ordering) → order_chain ns o ≡ run (jobs ns) o
unfolding order_chain jobs run
order_chain-run [] o = refl
order_chain-run (n ∷ ns) o =
    rw (run-append, versions-run)
      (elim (Option-cases (run (versions n (version_count n) 0) o)) [
        | inl e ↦ rw e
        | inr (o', e) ↦ rw e (order_chain-run ns o')
      ])

-- The version is within the arrays, its bytes and those of the older versions lie below `b`, and
-- its sequence number is not negative.
pub record IsJob (b : ℕ) (w : Job) : Type 0 where
  pub shaped : IsShaped w.0.c_data
  pub in_range : w.1 < max_versions
  pub below : SourcesBelow w.0.c_data (suc w.1) b
  pub counted : seq_of w ≡ pos (key_of w)

abbrev pub Distinct : List Job → Type 0
Distinct [] = Unit
Distinct (w ∷ ws) = All (λ v. key_of v ≢ key_of w) ws × Distinct ws

pub record IsReady (o : Ordering) : Type 0 where
  pub sized : IsSized o.table
  pub slots : HasSlots o.ordered_data

-- The table of `o'` holds the version, as it stood in the memory of `o`.
pub record IsHeld (o o' : Ordering) (w : Job) (d : SingleData) : Type 0 where
  pub found : view o'.table (key_of w) ≡ some d
  pub is_version : IsVersion w.0 w.1 o.heap d o'.heap

-- One round.
order_version-Holds :
    (w : Job) (o : Ordering)
    → IsReady o
    → IsJob o.heap.brk w
    → (o' : Ordering) × (order_version w.0 w.1 o ≡ some o')
      × IsReady o'
      × Extends o.heap o'.heap
      × (o'.total_size ≡ o.total_size + 1)
      × (IsPlaced o.table → IsPlaced o'.table)
      × (d : SingleData) × IsVersion w.0 w.1 o.heap d o'.heap
      × ((k : ℕ) → view o'.table k ≡ (if key_of w == k then some d else view o.table k))
unfolding order_version
order_version-Holds (n, j) o ready job =
    let (d, h', ran, v, ext) =
      fill-IsVersion n job.shaped j o.ordered_data o.heap ready.slots job.in_range job.below in
    let (table, inserted, sized, _, reads) = insert-Writes o.table ready.sized (key_of (n, j)) d in
    (
      record { ordered_data = d; heap = h'; table = table; total_size = o.total_size + 1 },
      rw (ran, v.sequence_number, job.counted, inserted),
      record { sized = sized; slots = v.shape },
      ext,
      refl,
      λ placed. insert-IsPlaced o.table ready.sized placed (key_of (n, j)) d inserted,
      d,
      v,
      reads,
    )

-- The table of `o'` holds the version of the job.
abbrev pub Stored : Ordering → Ordering → Job → Type 0
Stored o o' w = (d : SingleData) × IsHeld o o' w d

IsJob-grows : (b b' : ℕ) → b ≤ b' → (ws : List Job) → All (IsJob b) ws → All (IsJob b') ws
IsJob-grows b b' l [] js = tt
IsJob-grows b b' l (w ∷ ws) (j, js) = (
  record {
    shaped = j.shaped;
    in_range = j.in_range;
    below = λ i h. omega (arith, j.below i h);
    counted = j.counted;
  },
  IsJob-grows b b' l ws js,
)

Stored-earlier :
    (o o1 o' : Ordering)
    → Extends o.heap o1.heap
    → (ws : List Job) → All (IsJob o.heap.brk) ws
    → All (Stored o1 o') ws
    → All (Stored o o') ws
Stored-earlier o o1 o' e [] js ss = tt
Stored-earlier o o1 o' e (w ∷ ws) (j, js) ((d, held), ss) = (
  (
    d,
    record {
      found = held.found;
      is_version = IsVersion-earlier w.0 w.1 o.heap o1.heap o'.heap d j.below e held.is_version;
    },
  ),
  Stored-earlier o o1 o' e ws js ss,
)

run-Stored :
    (ws : List Job) (o : Ordering)
    → IsReady o
    → All (IsJob o.heap.brk) ws
    → Distinct ws
    → (o' : Ordering) × (run ws o ≡ some o')
      × IsReady o'
      × Extends o.heap o'.heap
      × (o'.total_size ≡ o.total_size + length ws)
      × (IsPlaced o.table → IsPlaced o'.table)
      × ((k : ℕ) → All (λ w. key_of w ≢ k) ws → view o'.table k ≡ view o.table k)
      × All (Stored o o') ws
unfolding run
run-Stored [] o ready js ds =
    (o, refl, ready, Extends-refl o.heap, omega arith, λ p. p, λ k a. refl, tt)
run-Stored (w ∷ ws) o ready (j, js) (new, ds) =
    let (o1, stepped, ready1, ext1, total1, placed1, d, v, reads1) =
      order_version-Holds w o ready j in
    let (o', ran, ready', ext, total, placed, others, stored) =
      run-Stored ws o1 ready1 (IsJob-grows _ _ ext1.grows ws js) ds in
    (
      o',
      rw stepped ran,
      ready',
      Extends-trans o.heap o1.heap o'.heap ext1 ext,
      omega (arith, total, total1),
      λ p. placed (placed1 p),
      λ k a. others k a.1 ∙ ground (arith, reads1 k, a.0, ==_iff (key_of w) k),
      (
        (
          d,
          record {
            found =
                others (key_of w) new
                ∙ reads1 (key_of w)
                ∙ ground (arith, ==_iff (key_of w) (key_of w));
            is_version = IsVersion-Extends w.0 w.1 o.heap o1.heap o'.heap d v ext;
          },
        ),
        Stored-earlier o o1 o' ext1 ws js stored,
      ),
    )

-- When the slots of the checkpoint log can be read, the arrays of all structures have three slots,
-- its versions lie within the arrays of their nodes and below the unused memory, and they carry
-- distinct sequence numbers that are not negative, `order_by_sequence_num` on a table in shape
-- (`IsSized`) runs to the end, counts the versions, files each of them under its number with copies
-- of its bytes and of the bytes of the older versions, leaves other numbers alone, keeps every node
-- in the bucket of its key and the keys apart, and writes to unused memory only.
pub order_by_sequence_num-Stored :
    (c : CheckpointLog) (ns : List Node) (o : Ordering)
    → checkpoint_nodes c ≡ some ns
    → IsReady o
    → All (IsJob o.heap.brk) (jobs ns)
    → Distinct (jobs ns)
    → (o' : Ordering) × (order_by_sequence_num c o ≡ some o')
      × IsReady o'
      × Extends o.heap o'.heap
      × (o'.total_size ≡ o.total_size + length (jobs ns))
      × (IsPlaced o.table → IsPlaced o'.table)
      × ((k : ℕ) → All (λ w. key_of w ≢ k) (jobs ns) → view o'.table k ≡ view o.table k)
      × All (Stored o o') (jobs ns)
unfolding order_by_sequence_num
order_by_sequence_num-Stored c ns o listed ready js ds =
    rw (listed, order_chain-run) (run-Stored (jobs ns) o ready js ds)
