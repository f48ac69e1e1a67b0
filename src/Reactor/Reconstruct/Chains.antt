-- ===== src/Reactor/Reconstruct/Chains.antt =====
-- One chain of a pool that `reconstruct_checkpoint` (reactor/lib/checkpoint.c) reads.
use arthas.Prelude.{
  ℕ, zero, suc, ◌+◌, ◌^◌, ◌<◌, ◌≡◌, ◌≢◌, refl, false, ◌==◌, Option, some, List, [], ◌∷◌, map, All,
  arith, length, ◌∙◌, pos, ltb_ℤ, true, ap, subst,
}
use arthas.Reactor.Platform.{returned}
use arthas.Reactor.Reconstruct.Pointers.{
  moved_data, moved_link, rebase_link-moved_link, change_slots-moved_data,
}
use arthas.Reactor.Reconstruct.{PoolNode, Pool, rebase, rebase_link, put, rebase_node, rebase_chain}

-- A node and its offset in the pool.
abbrev pub Cell : Type 0
Cell = ℕ × PoolNode

-- The pointer `p` to a chain, in a mapping at `base`, of a pool that is mapped at `pop`.
abbrev pub IsLinked : ℕ → ℕ → Pool → ℕ → List Cell → Type 0
IsLinked base pop pool p [] = p ≡ 0
IsLinked base pop pool p ((o, n) ∷ cells) =
    (p ≡ base + o) × (pool.nodes (pop + o) ≡ some n) × IsLinked base pop pool n.next cells

-- The node lies in both mappings, and its versions in its arrays.
pub record IsFitting (old pop : ℕ) (c : Cell) : Type 0 where
  pub in_old : old + c.0 < 2 ^ 64
  pub in_new : pop + c.0 < 2 ^ 64
  pub past_old : 0 < old + c.0
  pub past_new : 0 < pop + c.0
  pub slots : ltb_ℤ c.1.c_data.version (pos (length c.1.c_data.content)) ≡ true

-- No cell of the chain has the offset.
abbrev pub Avoids : ℕ → List Cell → Type 0
Avoids o = All (λ c. c.0 ≢ o)

abbrev pub Disjoint : List Cell → Type 0
Disjoint [] = Unit
Disjoint (c ∷ cells) = Avoids c.0 cells × Disjoint cells

-- The cell with its pointers in the new mapping.
abbrev pub rebased : ℕ → ℕ → Cell → Cell
rebased old pop (o, n) = (
  o,
  record n {
    c_data = record n.c_data { content = moved_data old pop n.c_data.version 0 n.c_data.content };
    next = moved_link old pop n.next;
  },
)

pub rebase-pos :
    (old pop o : ℕ) → old + o < 2 ^ 64 → pop + o < 2 ^ 64 → rebase old pop (old + o) ≡ pop + o
unfolding rebase
rebase-pos old pop o a b = omega arith

-- A chain is read from its own cells alone.
pub IsLinked-same :
    (base pop : ℕ) (pool pool' : Pool) (p : ℕ) (cells : List Cell)
    → All (λ c. pool'.nodes (pop + c.0) ≡ pool.nodes (pop + c.0)) cells
    → IsLinked base pop pool p cells
    → IsLinked base pop pool' p cells
IsLinked-same base pop pool pool' p [] same l = l
IsLinked-same base pop pool pool' p ((o, n) ∷ cells) same (at_p, found, rest) =
    (at_p, same.0 ∙ found, IsLinked-same base pop pool pool' n.next cells same.1 rest)

-- Only the nodes of the chain differ.
pub record Touches (pop : ℕ) (cells : List Cell) (pool pool' : Pool) : Type 0 where
  pub nodes : (a : ℕ) → All (λ c. pop + c.0 ≢ a) cells → pool'.nodes a ≡ pool.nodes a
  pub rest : pool' ≡ record pool { nodes = pool'.nodes }

pub Avoids-nodes :
    (pop o : ℕ) (cells : List Cell) → Avoids o cells → All (λ c. pop + c.0 ≢ pop + o) cells
Avoids-nodes pop o [] a = tt
Avoids-nodes pop o (c ∷ cells) (ne, a) = ((λ e. ne (omega (arith, e))), Avoids-nodes pop o cells a)

in_range : (old o : ℕ) → old + o < 2 ^ 64 → old < 2 ^ 64
in_range old o h = omega (arith, h)

module _ (old pop : ℕ) where
  rebase_node-rebased :
      (o : ℕ) (n : PoolNode) (pool : Pool)
      → IsFitting old pop (o, n)
      → pool.nodes (pop + o) ≡ some n
      → rebase_node old pop (pop + o) pool
        ≡ some (
          rebase_link old pop n.next,
          record pool { nodes = put (pop + o) (rebased old pop (o, n)).1 pool.nodes },
        )
  unfolding rebase_node
  rebase_node-rebased o n pool fits found = rw found (
      rw (change_slots-moved_data old pop n.c_data (in_range old o fits.in_old) fits.slots) (
        ap
          (λ q. some (
            rebase_link old pop n.next,
            record pool {
              nodes =
                  put (pop + o)
                    (record n {
                      c_data = record n.c_data {
                        content = moved_data old pop n.c_data.version 0 n.c_data.content;
                      };
                      next = q;
                    })
                    pool.nodes;
            },
          ))
          (rebase_link-moved_link old pop n.next (in_range old o fits.in_old))))

  others-kept :
      (o : ℕ) (n : PoolNode) (f : ℕ → Option PoolNode) (cells : List Cell)
      → Avoids o cells
      → All (λ c. put (pop + o) n f (pop + c.0) ≡ f (pop + c.0)) cells
  others-kept o n f [] a = tt
  others-kept o n f (c ∷ cells) (ne, a) = (ground arith, others-kept o n f cells a)

  link-start :
      (p o : ℕ) (n : PoolNode)
      → IsFitting old pop (o, n)
      → p ≡ old + o
      → rebase_link old pop p ≡ pop + o
  link-start p o n fits e =
      rw e (ground (arith, rebase-pos old pop o fits.in_old fits.in_new, fits.past_old))

  -- The walk along a chain of the old mapping makes it one of the new.
  pub rebase_chain-IsLinked :
      (cells : List Cell) (fuel p : ℕ) (pool : Pool)
      → length cells < fuel
      → All (IsFitting old pop) cells
      → Disjoint cells
      → IsLinked old pop pool p cells
      → (pool' : Pool) × (rebase_chain fuel old pop (rebase_link old pop p) pool ≡ returned pool')
        × IsLinked pop pop pool' (rebase_link old pop p) (map (rebased old pop) cells)
        × Touches pop cells pool pool'
  unfolding rebase_chain
  rebase_chain-IsLinked cells zero p pool enough fits apart linked = absurd (omega arith)
  rebase_chain-IsLinked [] (suc fuel) p pool enough fits apart linked =
      (pool, rw linked, rw linked, record { nodes = λ a h. refl; rest = refl })
  rebase_chain-IsLinked ((o, n) ∷ cells) (suc fuel) p pool enough (fit, fits) (avoid, apart)
        (at_p, found, linked) =
      let pool1 = record pool { nodes = put (pop + o) (rebased old pop (o, n)).1 pool.nodes } in
      let start = link-start p o n fit at_p in
      let nonzero : (pop + o == 0) ≡ false = ground (arith, fit.past_new) in
      let kept = others-kept o (rebased old pop (o, n)).1 pool.nodes cells avoid in
      let (pool2, ran, linked2, t) =
        rebase_chain-IsLinked cells fuel n.next pool1 (omega arith) fits apart
          (IsLinked-same old pop pool pool1 n.next cells kept linked) in
      (
        pool2,
        rw (start, nonzero) (rw (rebase_node-rebased o n pool fit found) ran),
        (
          start,
          t.nodes (pop + o) (Avoids-nodes pop o cells avoid) ∙ ground arith,
          subst (λ q. IsLinked pop pop pool2 q (map (rebased old pop) cells))
              (rebase_link-moved_link old pop n.next (in_range old o fit.in_old)) linked2,
        ),
        record { nodes = λ a h. t.nodes a h.1 ∙ ground (arith, h.0); rest = t.rest },
      )
