-- ===== src/Reactor/Collect.antt =====
-- The sequence numbers that `react` collects for an address of the trace (reactor/lib/core.cpp).
-- What is only printed is left out.
pub mod Members
pub mod Numbers
pub mod Trace
use arthas.Prelude.{
  ◌==◌, ℕ, ℤ, pos, negsuc, ltb_ℤ, eq_ℤ, ◌||◌, Option, some, List, [], ◌∷◌, ◌++◌, if◌then◌else◌,
  ◌>>=◌,
}
use mathlib.Core.List.{reverse}
use arthas.Prelude.Sort.{qsort}
use arthas.Reactor.Types.{SingleData, SeqLog}
use arthas.Reactor.SeqLog.{nodes, insert, rev_lookup}
use arthas.Reactor.Addresses.{Multimap, equal_range, insert_by}

-- `greater<int>()`: positive where the first number goes behind the second.
abbrev pub greater : ℤ → ℤ → ℤ
greater a b = if ltb_ℤ a b then pos 1 else pos 0

-- The first loop of `address_seq_creation`.
unfoldable pub address_seq_nums : SeqLog → Multimap → Option Multimap
unfolding nodes insert_by
address_seq_nums s m = do ns ← nodes s; some (insert_by (λ d. d.address) ns m)

-- `slice_seq_numbers` up to `slice_seq_iterator`, and the table `r_log`.
pub record Collection : Type 0 where
  pub many_address_seq : List ℤ
  pub slice_seq_numbers : List ℤ
  pub r_log : SeqLog

-- The body of the loop over `i`. The table is asked before the number is compared with -1.
unfoldable pub collect_number : SingleData → ℤ → Collection → Option Collection
collect_number empty_data k c = do
  search_num ← rev_lookup c.r_log k
  if eq_ℤ k (negsuc 0) || eq_ℤ search_num (pos 1) then some c else do
    r_log ← insert c.r_log k empty_data
    some (record {
      many_address_seq = c.many_address_seq ++ k ∷ [];
      slice_seq_numbers = c.slice_seq_numbers ++ k ∷ [];
      r_log = r_log;
    })

unfoldable pub collect_numbers : SingleData → List ℤ → Collection → Option Collection
collect_numbers empty_data [] c = some c
collect_numbers empty_data (k ∷ ks) c = do
  c' ← collect_number empty_data k c
  collect_numbers empty_data ks c'

-- The numbers at the address are sorted, the highest first, and collected from the last one on.
unfoldable pub collect_address : SingleData → Multimap → ℕ → Collection → Option Collection
unfolding equal_range qsort
collect_address empty_data m addr c =
    collect_numbers empty_data (reverse (qsort greater (equal_range addr m))) c

-- An item of the trace: an instruction, and the address that it used.
pub record TraceItem : Type 0 where
  pub instr : ℕ
  pub addr : ℕ

-- The loop over the items that the trace has for an instruction.
unfoldable pub collect_instruction :
    SingleData → Multimap → ℕ → List TraceItem → Collection → Option Collection
collect_instruction empty_data m dep_inst [] c = some c
collect_instruction empty_data m dep_inst (t ∷ ts) c = do
  c' ← if t.instr == dep_inst then collect_address empty_data m t.addr c else some c
  collect_instruction empty_data m dep_inst ts c'
