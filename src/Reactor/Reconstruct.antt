-- ===== src/Reactor/Reconstruct.antt =====
-- Reading the checkpoint log out of a pool that was mapped at another address when it was written
-- (`reconstruct_checkpoint` of reactor/lib/checkpoint.c). The pool is its nodes and its bucket
-- array, by their addresses in the present mapping; its pointers are those of the old mapping.
pub mod Chains
pub mod Linked
pub mod Pointers
pub mod Whole
use arthas.Prelude.{
  ℕ, zero, suc, ◌+◌, ◌-◌, ◌*◌, ◌%◌, ◌^◌, ℤ, pos, ◌==◌, Option, none, some, to_int, rounds,
  if◌then◌else◌, ◌>>=◌,
}
use arthas.Reactor.Types.{CheckpointData}
use arthas.Reactor.Platform.{Run, returned, undefined, unfinished, bind, defined}
use arthas.Reactor.Reexecute.{change_slots}

-- A node with its `next` pointer, 0 for `NULL`.
pub record PoolNode : Type 0 where
  pub offset : ℕ
  pub c_data : CheckpointData
  pub next : ℕ

-- `*old_pool`, the fields of the checkpoint log, the slots of the array, and the nodes.
pub record Pool : Type 0 where
  pub old_pool : ℕ
  pub size : ℕ
  pub variable_count : ℤ
  pub list : ℕ
  pub slots : ℕ → Option ℕ
  pub nodes : ℕ → Option PoolNode

-- `(uint64_t)pop + ((uint64_t)p - old_pool)`
unfoldable pub rebase : ℕ → ℕ → ℕ → ℕ
rebase old_pool pop p = (pop + (p + 2 ^ 64 - old_pool) % 2 ^ 64) % 2 ^ 64

-- The same for a pointer that may be `NULL`.
abbrev pub rebase_link : ℕ → ℕ → ℕ → ℕ
rebase_link old_pool pop p = if p == 0 then 0 else rebase old_pool pop p

abbrev pub put {ℓ} : {A : Type ℓ} → ℕ → A → (ℕ → Option A) → ℕ → Option A
put p v f a = if a == p then some v else f a

-- `for (int j = 0; j <= version; j++)` runs so often.
abbrev pub data_rounds : CheckpointData → ℕ
data_rounds c = elim c.version [ pos v ↦ suc v | _ ↦ 0 ]

-- The body of the walk along a chain: the new `next` pointer, and the pool.
unfoldable pub rebase_node : ℕ → ℕ → ℕ → Pool → Option (ℕ × Pool)
unfolding change_slots
rebase_node old_pool pop temp pool = do
  n ← pool.nodes temp
  content ← change_slots (data_rounds n.c_data) (rebase old_pool pop) n.c_data.content
  let next = rebase_link old_pool pop n.next
  let n' = record n { c_data = record n.c_data { content = content }; next = next }
  some (next, record pool { nodes = put temp n' pool.nodes })

unfoldable pub rebase_chain : ℕ → ℕ → ℕ → ℕ → Pool → Run Pool
rebase_chain zero old_pool pop temp pool = unfinished
rebase_chain (suc fuel) old_pool pop temp pool =
    if temp == 0
    then returned pool
    else bind (defined (rebase_node old_pool pop temp pool))
        λ (next, pool'). rebase_chain fuel old_pool pop next pool'

-- The body of the loop over the slots.
unfoldable pub rebase_slot : ℕ → ℕ → ℕ → ℕ → Pool → Run Pool
rebase_slot fuel old_pool pop i pool = bind (defined (pool.slots (pool.list + 8 * i))) λ head.
    let temp = rebase_link old_pool pop head in
    rebase_chain fuel old_pool pop temp
      (if head == 0 then pool else record pool { slots = put (pool.list + 8 * i) temp pool.slots })

-- The slots `i`, `i + 1`, ..., `count` in all.
unfoldable pub rebase_slots : ℕ → ℕ → ℕ → ℕ → ℕ → Pool → Run Pool
rebase_slots fuel old_pool pop zero i pool = returned pool
rebase_slots fuel old_pool pop (suc count) i pool =
    bind (rebase_slot fuel old_pool pop i pool)
      λ pool'. rebase_slots fuel old_pool pop count (suc i) pool'

-- What both branches do with a pool that is mapped at `pop`.
unfoldable pub rebase_pool : ℕ → ℕ → Pool → Run Pool
unfolding to_int
rebase_pool fuel pop pool =
    let moved = record pool { list = rebase pool.old_pool pop pool.list } in
    bind (rebase_slots fuel pool.old_pool pop (rounds (to_int pool.size)) 0 moved)
      λ pool'. returned (record pool' { old_pool = pop })

-- The strings that `pmem_library` is compared with.
pub data PmemLibrary : Type 0 where
  libpmemobj2 libpmem libpmemobj other_library : PmemLibrary

-- What `reconstruct_checkpoint` returns, or the end of the process.
pub data Reconstructed : Type 0 where
  no_log : Reconstructed
  exit_failure : Reconstructed
  log : Pool → Reconstructed

-- `mapped` is the answer of the library: the address of the mapping and the pool, if there is one.
-- Another library leaves `c_log` uninitialised.
unfoldable pub reconstruct_checkpoint : ℕ → PmemLibrary → Option (ℕ × Pool) → Run Reconstructed
unfolding rebase_pool
reconstruct_checkpoint fuel libpmemobj2 none = returned no_log
reconstruct_checkpoint fuel libpmemobj2 (some (pop, pool)) =
    bind (rebase_pool fuel pop pool) λ pool'. returned (log pool')
reconstruct_checkpoint fuel libpmem none = returned exit_failure
reconstruct_checkpoint fuel libpmem (some (pop, pool)) =
    bind (rebase_pool fuel pop pool) λ pool'. returned (log pool')
reconstruct_checkpoint fuel libpmemobj none = returned exit_failure
reconstruct_checkpoint fuel libpmemobj (some (pop, pool)) =
    bind (rebase_pool fuel pop pool) λ pool'. returned (log pool')
reconstruct_checkpoint fuel other_library mapped = undefined
