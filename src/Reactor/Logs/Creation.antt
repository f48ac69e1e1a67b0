-- ===== src/Reactor/Logs/Creation.antt =====
-- The tables that `seq_log_creation` (reactor/lib/core.cpp) makes.
use arthas.Prelude.{
  ℕ, zero, suc, ◌*◌, ◌%◌, ◌^◌, ◌≤◌, ◌<◌, ◌≡◌, ◌≢◌, refl, ℤ, none, some, List, [], ◌∷◌, All, arith,
  get_elem?, length, ap, ◌∙◌, sym, some_inj, subst,
}
use arthas.Memory.{Heap}
use arthas.Reactor.Types.{SingleData, SeqNode, Row, Node, CheckpointLog, SeqLog}
use arthas.Reactor.SeqLog.{find, insert}
use arthas.Reactor.SeqLog.Table.{IsSized, view, view-home, bucket-defined}
use arthas.Reactor.SeqLog.Placed.{IsPlaced, RowPlaced}
use arthas.Reactor.Order.{Ordering, checkpoint_nodes}
use arthas.Reactor.Order.Copies.{HasSlots, Extends}
use arthas.Reactor.Order.Fill.{IsVersion}
use arthas.Reactor.Order.Sequence.{
  Job, jobs, key_of, IsJob, Distinct, order_by_sequence_num-Stored, Stored,
}
use arthas.Reactor.Logs.{log_size, new_slots, seq_log_creation}

length-new_slots {ℓ} : (A : Type ℓ) (n : ℕ) → length (new_slots {A = A} n) ≡ n
unfolding new_slots
length-new_slots A zero = refl
length-new_slots A (suc n) = ap suc (length-new_slots A n)

new_slots-nil {ℓ} :
    {A : Type ℓ} (n i : ℕ) (r : List A) → get_elem? (new_slots n) i ≡ some r → r ≡ []
unfolding new_slots
new_slots-nil zero i r e = cc
new_slots-nil (suc n) zero r e = sym (some_inj e)
new_slots-nil (suc n) (suc i) r e = new_slots-nil n i r e

-- A new table with `n` buckets and `slots` slots.
abbrev fresh : ℕ → ℕ → SeqLog
fresh n slots = record { size = n; list = new_slots slots }

fresh-IsSized :
    (n slots : ℕ) → 0 < n → n < 2 ^ 31 → n ≤ slots → 92 < slots → IsSized (fresh n slots)
fresh-IsSized n slots a b c d = record {
  not_empty = a;
  fits_int = b;
  slots = rw length-new_slots c;
  probed = rw length-new_slots d;
}

fresh-IsPlaced : (n slots : ℕ) → IsPlaced (fresh n slots)
fresh-IsPlaced n slots = record {
  row = λ i r small e. subst (RowPlaced n i) (sym (new_slots-nil slots i r e)) (tt, tt);
}

view-fresh : (n slots : ℕ) → IsSized (fresh n slots) → (k : ℕ) → view (fresh n slots) k ≡ none
unfolding find
view-fresh n slots sized k =
    let (row, e) = bucket-defined (fresh n slots) sized k in
    rw (view-home (fresh n slots) sized k, e) (rw (new_slots-nil slots (k % n) row e))

log_size-bounds : (92 < log_size) × (log_size < 2 ^ 31)
unfolding log_size
log_size-bounds = (omega arith, omega arith)

insert-short : (s : SeqLog) (k : ℤ) (d : SingleData) → length s.list ≤ 92 → insert s k d ≡ none
unfolding insert
insert-short s k d short = rw (no_slot s.list 92 short)
  where
    no_slot : (l : List Row) (i : ℕ) → length l ≤ i → get_elem? l i ≡ none
    no_slot [] i h = refl
    no_slot (x ∷ l) zero h = absurd (omega arith)
    no_slot (x ∷ l) (suc i) h = no_slot l i (omega arith)

fresh-short :
    (n slots : ℕ) (k : ℤ) (d : SingleData) → slots ≤ 92 → insert (fresh n slots) k d ≡ none
fresh-short n slots k d short = insert-short (fresh n slots) k d (rw length-new_slots short)

-- What `seq_log_creation` gives for the nodes `ns` of the checkpoint log: a table with exactly
-- their versions, and a table of the collected ones that is empty, and in shape if there are six
-- versions at least, while nothing can be put into it if there are fewer.
pub record IsCreated (ns : List Node) (h : Heap) (s_log : SeqLog) (total : ℕ) (r_log : SeqLog)
    (h' : Heap) : Type 0 where
  pub sized : IsSized s_log
  pub placed : IsPlaced s_log
  pub counted : total ≡ length (jobs ns)
  pub stored :
      All
        (λ w. (d : SingleData) × (view s_log (key_of w) ≡ some d) × IsVersion w.0 w.1 h d h')
        (jobs ns)
  pub nothing_else : (k : ℕ) → All (λ w. key_of w ≢ k) (jobs ns) → view s_log k ≡ none
  pub extends : Extends h h'
  pub collected_size : r_log.size ≡ total
  pub collected_slots : length r_log.list ≡ 18 * total
  pub collected : 6 ≤ total → IsSized r_log × IsPlaced r_log × ((k : ℕ) → view r_log k ≡ none)
  pub collected_short : total < 6 → (k : ℤ) (d : SingleData) → insert r_log k d ≡ none

-- When the slots of the checkpoint log can be read, the arrays of all structures have three slots,
-- and its fewer than 2^31 versions lie within the arrays of their nodes and below the unused memory
-- and carry distinct sequence numbers that are not negative, `seq_log_creation` gives a table in
-- shape that holds each version under its number, with copies of its bytes and of the bytes of the
-- older ones, and nothing else, and counts the versions. Its second table is empty, and in shape if
-- there are six versions at least; with fewer, every `insert` into it reads out of bounds.
pub seq_log_creation-IsCreated :
    (uninit : SingleData) (c : CheckpointLog) (ns : List Node) (h : Heap)
    → checkpoint_nodes c ≡ some ns
    → HasSlots uninit
    → All (IsJob h.brk) (jobs ns)
    → Distinct (jobs ns)
    → length (jobs ns) < 2 ^ 31
    → (s_log : SeqLog) × (total : ℕ) × (r_log : SeqLog) × (h' : Heap) × (seq_log_creation uninit c h
        ≡ some (s_log, total, r_log, h'))
      × IsCreated ns h s_log total r_log h'
unfolding seq_log_creation
seq_log_creation-IsCreated uninit c ns h listed slots js ds few =
    let (big, small) = log_size-bounds in
    let sized0 = fresh-IsSized log_size log_size (omega (arith, big)) small (omega arith) big in
    let o0 : Ordering = record {
      ordered_data = uninit;
      heap = h;
      table = fresh log_size log_size;
      total_size = 0;
    } in
    let (o, ran, ready, ext, total, placed, others, stored) =
      order_by_sequence_num-Stored c ns o0 listed (record { sized = sized0; slots = slots }) js
        ds in
    let n = o.total_size in
    let count : n ≡ length (jobs ns) = omega (arith, total) in
    (
      o.table,
      n,
      fresh n (18 * n),
      o.heap,
      rw ran,
      record {
        sized = ready.sized;
        placed = placed (fresh-IsPlaced log_size log_size);
        counted = count;
        stored = held o0 o (jobs ns) stored;
        nothing_else = λ k a. others k a ∙ view-fresh log_size log_size sized0 k;
        extends = ext;
        collected_size = refl;
        collected_slots = length-new_slots SeqNode (18 * n);
        collected_short = λ less k d. fresh-short n (18 * n) k d (omega (arith, less));
        collected = λ enough.
            let sized =
              fresh-IsSized n (18 * n) (omega (arith, enough)) (omega (arith, count, few))
                (omega arith) (omega (arith, enough)) in
            (sized, fresh-IsPlaced n (18 * n), view-fresh n (18 * n) sized);
      },
    )
  where
    held :
        (o o' : Ordering) (ws : List Job)
        → All (Stored o o') ws
        → All
            (λ w.
              (d : SingleData) × (view o'.table (key_of w) ≡ some d)
              × IsVersion w.0 w.1 o.heap d o'.heap)
            ws
    held o o' [] a = tt
    held o o' (w ∷ ws) ((d, one), a) = ((d, one.found, one.is_version), held o o' ws a)
