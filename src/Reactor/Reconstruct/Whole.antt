-- ===== src/Reactor/Reconstruct/Whole.antt =====
-- The whole pool that `reconstruct_checkpoint` (reactor/lib/checkpoint.c) reads.
use arthas.Prelude.{
  ℕ, ◌+◌, ◌^◌, ◌<◌, ◌≡◌, ◌≢◌, refl, some, List, map, length, to_int, rounds, [], ◌∷◌, All,
  to_int-pos, ◌∙◌, ap,
}
use arthas.Reactor.SeqLog.{concat}
use arthas.Reactor.Platform.{returned}
use arthas.Reactor.Reconstruct.{
  Pool, PmemLibrary, libpmemobj2, libpmem, libpmemobj, other_library, log, rebase, rebase_pool,
  reconstruct_checkpoint,
}
use arthas.Reactor.Reconstruct.Chains.{Cell, Disjoint, rebased, rebase-pos}
use arthas.Reactor.Reconstruct.Linked.{
  IsLinkedFrom, IsLinkedFrom-same, AllFitting, rebase_slots-IsLinkedFrom,
}

-- The bucket array of the pool lies at the offset `array` and has the chains `rows`, with the
-- pointers of the mapping at `*old_pool`; no two nodes share a place.
pub record IsWritten (fuel pop array : ℕ) (rows : List (List Cell)) (pool : Pool) : Type 0 where
  pub counted : pool.size ≡ length rows
  pub fits_int : pool.size < 2 ^ 31
  pub list_at : pool.list ≡ pool.old_pool + array
  pub in_old : pool.old_pool + array < 2 ^ 64
  pub in_new : pop + array < 2 ^ 64
  pub fits : AllFitting pool.old_pool pop fuel rows
  pub apart : Disjoint (concat rows)
  pub linked : IsLinkedFrom pool.old_pool pop (record pool { list = pop + array }) 0 rows

-- The pool `pool'` has the same chains, with the pointers of the mapping at `pop`.
pub record IsRead (pop array : ℕ) (rows : List (List Cell)) (pool pool' : Pool) : Type 0 where
  pub mapping : pool'.old_pool ≡ pop
  pub list_at : pool'.list ≡ pop + array
  pub size : pool'.size ≡ pool.size
  pub variable_count : pool'.variable_count ≡ pool.variable_count
  pub linked : IsLinkedFrom pop pop pool' 0 (map (map (rebased pool.old_pool pop)) rows)

unchanged {ℓ} :
    {A : Type ℓ} (f : ℕ → A) (pop : ℕ) (cells : List Cell)
    → All (λ c. f (pop + c.0) ≡ f (pop + c.0)) cells
unchanged f pop [] = tt
unchanged f pop (c ∷ cells) = (refl, unchanged f pop cells)

rebase_pool-IsRead :
    (fuel pop array : ℕ) (rows : List (List Cell)) (pool : Pool)
    → IsWritten fuel pop array rows pool
    → (pool' : Pool) × (rebase_pool fuel pop pool ≡ returned pool')
      × IsRead pop array rows pool pool'
unfolding rebase_pool
rebase_pool-IsRead fuel pop array rows pool w =
    let old = pool.old_pool in
    let at_array : rebase old pop pool.list ≡ pop + array =
      ap (rebase old pop) w.list_at ∙ rebase-pos old pop array w.in_old w.in_new in
    let counts : rounds (to_int pool.size) ≡ length rows =
      rw (to_int-pos pool.size w.fits_int) w.counted in
    let moved = record pool { list = pop + array } in
    let (pool1, ran, linked, t) =
      rebase_slots-IsLinkedFrom old pop fuel rows 0 moved w.fits w.apart w.linked in
    (
      record pool1 { old_pool = pop },
      rw (at_array, counts) (rw ran),
      record {
        mapping = refl;
        list_at = ap (λ (q : Pool). q.list) t.rest;
        size = ap (λ (q : Pool). q.size) t.rest;
        variable_count = ap (λ (q : Pool). q.variable_count) t.rest;
        linked =
            IsLinkedFrom-same pop pop pool1 (record pool1 { old_pool = pop }) 0
              (map (map (rebased old pop)) rows) (λ j h. refl) (unchanged pool1.nodes pop _) linked;
      },
    )

-- For each of the three known libraries, a pool that is mapped, whose bucket array and nodes lie
-- within both mappings and hold chains shorter than the fuel that share no node, with the pointers
-- of the old mapping, and whose nodes have their versions within their arrays:
-- `reconstruct_checkpoint` returns the log, which has the same chains in the same buckets with
-- every pointer of the new mapping, and notes the new mapping. The data pointers of the versions up
-- to the current one of each node are as far from the start of the new mapping, in 64-bit
-- arithmetic, as they were from that of the old one, and those behind it stay.
pub reconstruct_checkpoint-IsRead :
    (library : PmemLibrary) (fuel pop array : ℕ) (rows : List (List Cell)) (pool : Pool)
    → library ≢ other_library
    → IsWritten fuel pop array rows pool
    → (pool' : Pool) × (reconstruct_checkpoint fuel library (some (pop, pool))
        ≡ returned (log pool'))
      × IsRead pop array rows pool pool'
unfolding reconstruct_checkpoint
reconstruct_checkpoint-IsRead libpmemobj2 fuel pop array rows pool known w =
    let (pool', ran, r) = rebase_pool-IsRead fuel pop array rows pool w in (pool', rw ran, r)
reconstruct_checkpoint-IsRead libpmem fuel pop array rows pool known w =
    let (pool', ran, r) = rebase_pool-IsRead fuel pop array rows pool w in (pool', rw ran, r)
reconstruct_checkpoint-IsRead libpmemobj fuel pop array rows pool known w =
    let (pool', ran, r) = rebase_pool-IsRead fuel pop array rows pool w in (pool', rw ran, r)
reconstruct_checkpoint-IsRead other_library fuel pop array rows pool known w = absurd (known refl)
