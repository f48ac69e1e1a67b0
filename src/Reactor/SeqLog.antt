-- ===== src/Reactor/SeqLog.antt =====
-- The hash table of versions by sequence number (reactor/lib/checkpoint.c).
-- A read outside the bucket array, or of an empty table, is undefined: `none`.
pub mod Rows
pub mod Table
pub mod Placed
pub mod Walk
pub mod Scans
pub mod Highest
use arthas.Prelude.{
  ℕ, zero, suc, ◌+◌, ◌-◌, ◌%◌, ◌^◌, ℤ, pos, negsuc, Bool, true, false, ◌||◌, ltb_ℤ, ◌==◌, Option,
  none, some, List, [], ◌∷◌, ◌++◌, eq_ℤ, to_int, rounds, get_elem?, set, length, if◌then◌else◌,
  ◌>>=◌,
}
use arthas.Memory.{Bytes, memcpy}
use arthas.Reactor.Types.{SingleData, SeqNode, Row, SeqLog}

-- `key % size` in the unsigned arithmetic of `size_t`, negated for a negative key, as an `int`.
unfoldable pub hash_code : ℕ → ℤ → Option ℤ
unfolding to_int
hash_code zero key = none
hash_code (suc n) (pos k) = some (to_int (k % suc n))
hash_code (suc n) (negsuc k) = some (to_int ((2 ^ 64 - (2 ^ 64 - (k + 1)) % suc n) % 2 ^ 64))

-- `list[i]` at an `int` index.
unfoldable pub at {ℓ} : {A : Type ℓ} → List A → ℤ → Option A
at l (pos i) = get_elem? l i
at l (negsuc i) = none

-- `list[i] = row`, behind a read of the same slot.
unfoldable pub put_at {ℓ} : {A : Type ℓ} → List A → ℤ → A → List A
put_at l (pos i) row = set l i row
put_at l (negsuc i) row = l

-- The walk along a chain to the first node with the key.
unfoldable pub find : ℤ → Row → Option SingleData
find key [] = none
find key (n ∷ row) = if eq_ℤ n.sequence_number key then some n.ordered_data else find key row

-- The same walk, with a change of that node.
unfoldable pub change : ℤ → (SingleData → SingleData) → Row → Row
change key f [] = []
change key f (n ∷ row) =
    if eq_ℤ n.sequence_number key
    then record n { ordered_data = f n.ordered_data } ∷ row
    else n ∷ change key f row

-- Overwrites the node of the key, or puts a new node in front when the walk finds none.
unfoldable pub insert_row : ℤ → SingleData → Row → Row
unfolding find change
insert_row key d row = elim (find key row) [
  | none ↦ record { sequence_number = key; ordered_data = d } ∷ row
  | some _ ↦ change key (λ _. d) row
]

-- The bucket of a key.
unfoldable pub bucket : SeqLog → ℤ → Option Row
unfolding hash_code at
bucket s key = do p ← hash_code s.size key; at s.list p

-- The first line reads `list[92]`, whatever the key is.
unfoldable pub insert : SeqLog → ℤ → SingleData → Option SeqLog
unfolding hash_code at put_at insert_row
insert s key d = do
  t ← get_elem? s.list 92
  p ← hash_code s.size key
  row ← at s.list p
  some (record s { list = put_at s.list p (insert_row key d row) })

unfoldable pub rev_lookup : SeqLog → ℤ → Option ℤ
unfolding bucket find
rev_lookup s key = do
  row ← bucket s key
  some (elim (find key row) [ none ↦ negsuc 0 | some _ ↦ pos 1 ])

unfoldable pub lookup_modify : SeqLog → ℤ → ℕ → Option SeqLog
unfolding hash_code at put_at change
lookup_modify s key addr = do
  p ← hash_code s.size key
  row ← at s.list p
  some (record s {
    list = put_at s.list p (change key (λ d. record d { sorted_pmem_address = addr }) row);
  })

-- The node's buffer is overwritten by the `size` bytes at its persistent address.
unfoldable pub lookup_undo_save : SeqLog → ℤ → ℕ → ℕ → Bytes → Option Bytes
unfolding bucket find memcpy
lookup_undo_save s key addr size m = do
  row ← bucket s key
  some (elim (find key row) [ none ↦ m | some d ↦ memcpy d.content d.sorted_pmem_address size m ])

-- A key that is not there gives an uninitialised structure with the sequence number -1.
unfoldable pub lookup : SingleData → SeqLog → ℤ → Option SingleData
unfolding bucket find
lookup uninit s key = do
  row ← bucket s key
  some (elim (find key row) [ none ↦ record uninit { sequence_number = negsuc 0 } | some d ↦ d ])

-- `list[0]`, ..., `list[n - 1]`.
unfoldable pub read_slots {ℓ} : {A : Type ℓ} → ℕ → List A → Option (List A)
read_slots zero l = some []
read_slots (suc n) [] = none
read_slots (suc n) (x ∷ l) = do rest ← read_slots n l; some (x ∷ rest)

-- The rows that `for (int i = 0; i < (int)size; i++)` visits, and their nodes in order.
unfoldable pub rows : SeqLog → Option (List Row)
unfolding read_slots to_int
rows s = read_slots (rounds (to_int s.size)) s.list

unfoldable pub concat {ℓ} : {A : Type ℓ} → List (List A) → List A
concat [] = []
concat (x ∷ xs) = x ++ concat xs

unfoldable pub nodes : SeqLog → Option Row
unfolding rows concat
nodes s = do rs ← rows s; some (concat rs)

-- The sequence numbers that are written to `sequences[0]`, ..., `sequences[*seq_count - 1]`.
unfoldable pub addressed : ℕ → Row → List ℤ
addressed address [] = []
addressed address (n ∷ row) =
    let rest = addressed address row in
    if address == n.ordered_data.address then n.sequence_number ∷ rest else rest

unfoldable pub address_lookup : SeqLog → ℕ → Option (List ℤ × ℕ)
unfolding nodes addressed
address_lookup s address = do
  ns ← nodes s
  let sequences = addressed address ns
  some (sequences, length sequences)

unfoldable pub count_above : ℤ → ℕ → Row → ℕ
count_above seq_num n [] = n
count_above seq_num n (t ∷ row) =
    count_above seq_num (if ltb_ℤ seq_num t.sequence_number then n + 1 else n) row

unfoldable pub count_higher : SeqLog → ℤ → Option ℕ
unfolding nodes count_above
count_higher s seq_num = do ns ← nodes s; some (count_above seq_num 0 ns)

unfoldable pub highest : ℤ → Row → ℤ
highest best [] = best
highest best (t ∷ row) =
    highest (if ltb_ℤ best t.sequence_number then t.sequence_number else best) row

unfoldable pub find_highest_seq_num : SeqLog → Option ℤ
unfolding nodes highest
find_highest_seq_num s = do ns ← nodes s; some (highest (negsuc 0) ns)
