-- ===== src/Reactor/Reconstruct/Linked.antt =====
-- All chains of a pool that `reconstruct_checkpoint` (reactor/lib/checkpoint.c) reads.
use arthas.Prelude.{
  ℕ, suc, ◌+◌, ◌*◌, ◌≤◌, ◌<◌, ◌≡◌, ◌≢◌, refl, ◌==◌, Option, some, List, [], ◌∷◌, ◌++◌, map, All,
  arith, length, if◌then◌else◌, ◌∙◌, sym, ap, Bool-cases, inl, inr,
}
use arthas.Reactor.SeqLog.{concat}
use arthas.Reactor.Platform.{returned}
use arthas.Reactor.Reconstruct.{PoolNode, Pool, rebase_link, put, rebase_slot, rebase_slots}
use arthas.Reactor.Reconstruct.Chains.{
  Cell, IsLinked, IsFitting, Avoids, Disjoint, rebased, IsLinked-same, Avoids-nodes,
  rebase_chain-IsLinked,
}

-- The slots from `i` on point to the chains.
abbrev pub IsLinkedFrom : ℕ → ℕ → Pool → ℕ → List (List Cell) → Type 0
IsLinkedFrom base pop pool i [] = Unit
IsLinkedFrom base pop pool i (row ∷ rows) =
    ((p : ℕ) × (pool.slots (pool.list + 8 * i) ≡ some p) × IsLinked base pop pool p row)
    × IsLinkedFrom base pop pool (suc i) rows

Disjoint-split :
    (xs ys : List Cell)
    → Disjoint (xs ++ ys)
    → Disjoint xs × Disjoint ys × All (λ c. Avoids c.0 ys) xs
Disjoint-split [] ys d = (tt, d, tt)
Disjoint-split (x ∷ xs) ys (a, d) =
    let (dx, dy, cross) = Disjoint-split xs ys d in
    let (ax, ay) = split xs a in ((ax, dx), dy, (ay, cross))
  where
    split : (zs : List Cell) → Avoids x.0 (zs ++ ys) → Avoids x.0 zs × Avoids x.0 ys
    split [] b = (tt, b)
    split (z ∷ zs) b = let (bz, by) = split zs b.1 in ((b.0, bz), by)

-- The cells of one list avoid those of the other.
cross-nodes :
    (pop : ℕ) (d : Cell) (xs ys : List Cell)
    → All (λ c. Avoids c.0 (d ∷ ys)) xs
    → All (λ c. pop + c.0 ≢ pop + d.0) xs × All (λ c. Avoids c.0 ys) xs
cross-nodes pop d [] ys a = (tt, tt)
cross-nodes pop d (x ∷ xs) ys ((ne, a), more) =
    let (first, second) = cross-nodes pop d xs ys more in
    (((λ e. ne (omega (arith, e))), first), (a, second))

pub IsLinkedFrom-same :
    (base pop : ℕ) (pool pool' : Pool) (i : ℕ) (rows : List (List Cell))
    → ((j : ℕ) → i ≤ j → pool'.slots (pool'.list + 8 * j) ≡ pool.slots (pool.list + 8 * j))
    → All (λ d. pool'.nodes (pop + d.0) ≡ pool.nodes (pop + d.0)) (concat rows)
    → IsLinkedFrom base pop pool i rows
    → IsLinkedFrom base pop pool' i rows
unfolding concat
IsLinkedFrom-same base pop pool pool' i [] slots nodes l = tt
IsLinkedFrom-same base pop pool pool' i (row ∷ rows) slots nodes ((p, at_slot, linked), l) =
    let (here, later) = split row nodes in
    (
      (p, slots i (omega arith) ∙ at_slot, IsLinked-same base pop pool pool' p row here linked),
      IsLinkedFrom-same base pop pool pool' (suc i) rows (λ j h. slots j (omega arith)) later l,
    )
  where
    split :
        (zs : List Cell)
        → All (λ d. pool'.nodes (pop + d.0) ≡ pool.nodes (pop + d.0)) (zs ++ concat rows)
        → All (λ d. pool'.nodes (pop + d.0) ≡ pool.nodes (pop + d.0)) zs
          × All (λ d. pool'.nodes (pop + d.0) ≡ pool.nodes (pop + d.0)) (concat rows)
    split [] b = (tt, b)
    split (z ∷ zs) b = let (bz, by) = split zs b.1 in ((b.0, bz), by)

-- Only the nodes of the chains and the slots from `i` on differ.
pub record Rewrites (pop i : ℕ) (cells : List Cell) (pool pool' : Pool) : Type 0 where
  pub nodes : (a : ℕ) → All (λ c. pop + c.0 ≢ a) cells → pool'.nodes a ≡ pool.nodes a
  pub slots : (j : ℕ) → j < i → pool'.slots (pool.list + 8 * j) ≡ pool.slots (pool.list + 8 * j)
  pub rest : pool' ≡ record pool { nodes = pool'.nodes; slots = pool'.slots }

-- The chains are shorter than the fuel, and their nodes lie in both mappings.
abbrev pub AllFitting : ℕ → ℕ → ℕ → List (List Cell) → Type 0
AllFitting old pop fuel = All (λ row. (length row < fuel) × All (IsFitting old pop) row)

-- The pool with the pointer to a chain moved.
record Moved (old pop i p : ℕ) (pool pool' : Pool) : Type 0 where
  pub at_slot : pool'.slots (pool.list + 8 * i) ≡ some (rebase_link old pop p)
  pub others : (j : ℕ) → j ≢ i → pool'.slots (pool.list + 8 * j) ≡ pool.slots (pool.list + 8 * j)
  pub rest : pool' ≡ record pool { slots = pool'.slots }

abbrev with_head : ℕ → ℕ → ℕ → ℕ → Pool → Pool
with_head old pop i p pool =
    if p == 0
    then pool
    else record pool { slots = put (pool.list + 8 * i) (rebase_link old pop p) pool.slots }

with_head-Moved :
    (old pop i p : ℕ) (pool : Pool)
    → pool.slots (pool.list + 8 * i) ≡ some p
    → Moved old pop i p pool (with_head old pop i p pool)
with_head-Moved old pop i p pool e = elim (Bool-cases (p == 0)) [
  | inl null ↦ rw null (record { at_slot = e ∙ ground arith; others = λ j ne. refl; rest = refl })
  | inr some_node ↦
      rw some_node (record { at_slot = ground arith; others = λ j ne. ground arith; rest = refl })
]

module _ (old pop fuel : ℕ) where
  rebase_slot-IsLinked :
      (i : ℕ) (row : List Cell) (p : ℕ) (pool : Pool)
      → length row < fuel
      → All (IsFitting old pop) row
      → Disjoint row
      → pool.slots (pool.list + 8 * i) ≡ some p
      → IsLinked old pop pool p row
      → (pool' : Pool) × (rebase_slot fuel old pop i pool ≡ returned pool')
        × (pool'.slots (pool.list + 8 * i) ≡ some (rebase_link old pop p))
        × IsLinked pop pop pool' (rebase_link old pop p) (map (rebased old pop) row)
        × Rewrites pop i row pool pool'
        × ((j : ℕ) → i < j → pool'.slots (pool.list + 8 * j) ≡ pool.slots (pool.list + 8 * j))
  unfolding rebase_slot
  rebase_slot-IsLinked i row p pool enough fits apart at_slot linked =
      let pool1 = with_head old pop i p pool in
      let moved = with_head-Moved old pop i p pool at_slot in
      let same : pool1.nodes ≡ pool.nodes = ap (λ (q : Pool). q.nodes) moved.rest in
      let (pool2, ran, linked2, t) =
        rebase_chain-IsLinked old pop row fuel p pool1 enough fits apart (
          IsLinked-same old pop pool pool1 p row (all_same row (λ a. ap (λ f. f a) same)) linked) in
      let slots2 : pool2.slots ≡ pool1.slots = ap (λ (q : Pool). q.slots) t.rest in
      (
        pool2,
        rw at_slot ran,
        ap (λ f. f (pool.list + 8 * i)) slots2 ∙ moved.at_slot,
        linked2,
        record {
          nodes = λ a h. t.nodes a h ∙ ap (λ f. f a) same;
          slots = λ j h. ap (λ f. f (pool.list + 8 * j)) slots2 ∙ moved.others j (omega (arith));
          rest =
              t.rest
              ∙ ap (λ (q : Pool). record q { nodes = pool2.nodes }) moved.rest
              ∙ ap (λ f. record pool { nodes = pool2.nodes; slots = f }) (sym slots2);
        },
        λ j h. ap (λ f. f (pool.list + 8 * j)) slots2 ∙ moved.others j (omega (arith)),
      )
    where
      all_same :
          (cells : List Cell) {f g : ℕ → Option PoolNode}
          → ((a : ℕ) → f a ≡ g a)
          → All (λ c. f (pop + c.0) ≡ g (pop + c.0)) cells
      all_same [] h = tt
      all_same (c ∷ cells) h = (h (pop + c.0), all_same cells h)

  pub rebase_slots-IsLinkedFrom :
      (rows : List (List Cell)) (i : ℕ) (pool : Pool)
      → AllFitting old pop fuel rows
      → Disjoint (concat rows)
      → IsLinkedFrom old pop pool i rows
      → (pool' : Pool) × (rebase_slots fuel old pop (length rows) i pool ≡ returned pool')
        × IsLinkedFrom pop pop pool' i (map (map (rebased old pop)) rows)
        × Rewrites pop i (concat rows) pool pool'
  unfolding rebase_slots concat
  rebase_slots-IsLinkedFrom [] i pool fits apart linked =
      (pool, refl, tt, record { nodes = λ a h. refl; slots = λ j h. refl; rest = refl })
  rebase_slots-IsLinkedFrom (row ∷ rows) i pool ((enough, fit), fits) apart
        ((p, at_slot, here), linked) =
      let (apart_row, apart_rows, cross) = Disjoint-split row (concat rows) apart in
      let (pool1, ran1, slot1, here1, t1, later1) =
        rebase_slot-IsLinked i row p pool enough fit apart_row at_slot here in
      let list1 : pool1.list ≡ pool.list = ap (λ (q : Pool). q.list) t1.rest in
      let linked1 =
        IsLinkedFrom-same old pop pool pool1 (suc i) rows (λ j h. rw list1 (later1 j (omega arith)))
          (rewritten-others pool pool1 i row (concat rows) t1 cross) linked in
      let (pool2, ran2, linked2, t2) =
        rebase_slots-IsLinkedFrom rows (suc i) pool1 fits apart_rows linked1 in
      let list2 : pool2.list ≡ pool.list = ap (λ (q : Pool). q.list) t2.rest ∙ list1 in
      (
        pool2,
        rw ran1 ran2,
        (
          (
            rebase_link old pop p,
            rw (list2) (rw (← list1) (t2.slots i (omega arith)) ∙ slot1),
            IsLinked-same pop pop pool1 pool2 (rebase_link old pop p) (map (rebased old pop) row)
                (row_kept row (concat rows) pool1 pool2 (suc i) t2 cross) here1,
          ),
          linked2,
        ),
        record {
          nodes = λ a h. let (h1, h2) = split row a h in t2.nodes a h2 ∙ t1.nodes a h1;
          slots = λ j h. rw (← list1) (t2.slots j (omega arith)) ∙ t1.slots j h;
          rest =
              t2.rest
              ∙ ap (λ (q : Pool). record q { nodes = pool2.nodes; slots = pool2.slots }) t1.rest;
        },
      )
    where
      split :
          (zs : List Cell) (a : ℕ)
          → All (λ c. pop + c.0 ≢ a) (zs ++ concat rows)
          → All (λ c. pop + c.0 ≢ a) zs × All (λ c. pop + c.0 ≢ a) (concat rows)
      split [] a b = (tt, b)
      split (z ∷ zs) a b = let (bz, by) = split zs a b.1 in ((b.0, bz), by)

      rewritten-others :
          (q q' : Pool) (k : ℕ) (cells others : List Cell)
          → Rewrites pop k cells q q'
          → All (λ c. Avoids c.0 others) cells
          → All (λ d. q'.nodes (pop + d.0) ≡ q.nodes (pop + d.0)) others
      rewritten-others q q' k cells [] t a = tt
      rewritten-others q q' k cells (d ∷ others) t a =
          let (ne, more) = cross-nodes pop d cells others a in
          (t.nodes (pop + d.0) ne, rewritten-others q q' k cells others t more)

      row_kept :
          (cells others : List Cell) (q q' : Pool) (k : ℕ)
          → Rewrites pop k others q q'
          → All (λ c. Avoids c.0 others) cells
          → All (λ c. q'.nodes (pop + c.0) ≡ q.nodes (pop + c.0)) (map (rebased old pop) cells)
      row_kept [] others q q' k t a = tt
      row_kept (c ∷ cells) others q q' k t a = (
        t.nodes (pop + c.0) (Avoids-nodes pop c.0 others a.0),
        row_kept cells others q q' k t a.1,
      )
