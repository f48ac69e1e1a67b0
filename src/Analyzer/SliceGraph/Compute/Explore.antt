-- ===== src/Analyzer/SliceGraph/Compute/Explore.antt =====
-- The edges of one node in the walk of `computeSlices`, with the default flags
-- (analyzer/lib/Slicing/SliceGraph.cpp).
use arthas.Prelude.{
  ℕ, zero, suc, ◌+◌, ◌-◌, ◌≤◌, ◌≡◌, refl, Bool, true, false, ◌==◌, ltb, Option, none, some, List,
  [], ◌∷◌, All, All-append, length, arith, ◌∙◌, Bool-cases, Option-cases, inl, inr, ◌⊎◌,
}
use arthas.Analyzer.Slices.{SliceDependence, Slice, fork, get_slice, has_slice, add_slice}
use arthas.Analyzer.SliceGraph.{SliceEdge, SliceGraph, is_listed}
use arthas.Analyzer.SliceGraph.Compute.{WalkState, add_fork, visit, explore}
use arthas.Analyzer.SliceGraph.Compute.Contents.{
  unvisited, unvisited-lt, listed-cons, listed_self, any_value, any_value-append, has_slice-append,
  IsSlice, fork-IsSlice, get_slice-IsSlice,
}

module _ (function_of : ℕ → ℕ) (g : SliceGraph) (Q : ℕ → Type 0) (root : ℕ) (root_ok : Q root) where
  -- The slices have the identifiers from 1 to the last one.
  abbrev pub HasIds : WalkState → Type 0
  HasIds w = (id : ℕ) → 1 ≤ id → id ≤ w.curr_slice_id → has_slice id w.slices ≡ true

  abbrev pub HasSlices : WalkState → Type 0
  HasSlices w = All (IsSlice Q root) w.slices

  -- What a step did with `k` new nodes before it, and `k'` behind.
  pub record IsStep (k : ℕ) (w : WalkState) (k' : ℕ) (w' : WalkState) : Type 0 where
    pub measure :
        length w'.vstack + unvisited w'.visited g.nodes
        ≤ length w.vstack + unvisited w.visited g.nodes
    pub pushed : length w'.vstack + k ≡ length w.vstack + k'
    pub current : w'.curr_slice ≡ w.curr_slice
    pub forked : w'.curr_slice_id + (k - 1) ≡ w.curr_slice_id + (k' - 1)
    pub more : k ≤ k'
    pub visits : (n : ℕ) → is_listed n w.visited ≡ true → is_listed n w'.visited ≡ true
    pub stacks : (n : ℕ) → is_listed n w.vstack ≡ true → is_listed n w'.vstack ≡ true
    pub visited_new :
        (n : ℕ)
        → is_listed n w'.visited ≡ true
        → (is_listed n w.visited ≡ true) ⊎ (is_listed n w'.vstack ≡ true)
    pub keeps : (v : ℕ) → any_value v w.slices ≡ true → any_value v w'.slices ≡ true
    pub ids : HasIds w → HasIds w'
    pub slices : HasSlices w → HasSlices w'

  IsStep-refl : (k : ℕ) (w : WalkState) → IsStep k w k w
  IsStep-refl k w = record {
    measure = omega arith;
    pushed = refl;
    current = refl;
    forked = refl;
    more = omega arith;
    visits = λ n h. h;
    stacks = λ n h. h;
    visited_new = λ n h. inl h;
    keeps = λ v h. h;
    ids = λ h. h;
    slices = λ h. h;
  }

  IsStep-trans :
      (k k1 k2 : ℕ) (w w1 w2 : WalkState) → IsStep k w k1 w1 → IsStep k1 w1 k2 w2 → IsStep k w k2 w2
  IsStep-trans k k1 k2 w w1 w2 a b =
      let am = a.measure in
      let bm = b.measure in
      let ap' = a.pushed in
      let bp = b.pushed in
      let af = a.forked in
      let bf = b.forked in
      let ae = a.more in
      let be = b.more in
      record {
        measure = omega (arith, am, bm);
        pushed = omega (arith, ap', bp);
        current = b.current ∙ a.current;
        forked = omega (arith, af, bf);
        more = omega (arith, ae, be);
        visits = λ n h. b.visits n (a.visits n h);
        stacks = λ n h. b.stacks n (a.stacks n h);
        visited_new = λ n h. elim (b.visited_new n h) [
          | inl h1 ↦ elim (a.visited_new n h1) [ inl h0 ↦ inl h0 | inr s ↦ inr (b.stacks n s) ]
          | inr s ↦ inr s
        ];
        keeps = λ v h. b.keeps v (a.keeps v h);
        ids = λ h. b.ids (a.ids h);
        slices = λ h. b.slices (a.slices h);
      }

  -- A new node on the stack; `s` is the fork, if there is one.
  abbrev on_stack : ℕ → WalkState → WalkState
  on_stack t w = record w { visited = t ∷ w.visited; vstack = t ∷ w.vstack }

  visited_listed :
      (t n : ℕ) (visited vstack : List ℕ)
      → is_listed n (t ∷ visited) ≡ true
      → (is_listed n visited ≡ true) ⊎ (is_listed n (t ∷ vstack) ≡ true)
  unfolding is_listed
  visited_listed t n visited vstack h = elim (Bool-cases (t == n)) [
    | inl e ↦ inr (rw e)
    | inr e ↦ inl (rw e at h)
  ]

  first-IsStep :
      (t : ℕ) (w : WalkState)
      → is_listed t g.nodes ≡ true
      → is_listed t w.visited ≡ false
      → IsStep 0 w 1 (on_stack t w)
  first-IsStep t w there new =
      let lt = unvisited-lt t w.visited g.nodes new there in
      record {
        measure = omega (arith, lt);
        pushed = omega arith;
        current = refl;
        forked = omega arith;
        more = omega arith;
        visits = λ n h. listed-cons t n w.visited h;
        stacks = λ n h. listed-cons t n w.vstack h;
        visited_new = λ n h. visited_listed t n w.visited w.vstack h;
        keeps = λ v h. h;
        ids = λ h. h;
        slices = λ h. h;
      }

  -- A new node with a fork of the current slice.
  fork-IsStep :
      (k t : ℕ) (w : WalkState) (s : Slice)
      → is_listed t g.nodes ≡ true
      → is_listed t w.visited ≡ false
      → get_slice w.curr_slice w.slices ≡ some s
      → let id = w.curr_slice_id + 1 in
        IsStep (suc k) w (suc (suc k)) (record (on_stack t w) {
          curr_slice_id = id;
          slices = add_slice (record (fork s) { id = id }) w.slices;
        })
  fork-IsStep k t w s there new got =
      let lt = unvisited-lt t w.visited g.nodes new there in
      let id = w.curr_slice_id + 1 in
      let copy = record (fork s) { id = id } in
      record {
        measure = omega (arith, lt);
        pushed = omega arith;
        current = refl;
        forked = omega arith;
        more = omega arith;
        visits = λ n h. listed-cons t n w.visited h;
        stacks = λ n h. listed-cons t n w.vstack h;
        visited_new = λ n h. visited_listed t n w.visited w.vstack h;
        keeps = λ v h. any_value-append v w.slices (copy ∷ []) ∙ rw h;
        ids = λ h j low high. has_slice-append j w.slices copy ∙ elim (Bool-cases (id == j)) [
          | inl e ↦ rw e (ground arith)
          | inr e ↦ rw (h j low (ground arith))
        ];
        slices = λ all.
            let is =
              fork-IsSlice Q root s root_ok
                (get_slice-IsSlice Q root w.curr_slice w.slices s all got) in
            All-append (IsSlice Q root) w.slices (copy ∷ []) all (
              record {
                root_is = is.root_is;
                rest = is.rest;
                starts = is.starts;
                values = is.values;
              },
              tt,
            );
      }

  no_slice :
      (w : WalkState)
      → get_slice w.curr_slice w.slices ≡ none
      → has_slice w.curr_slice w.slices ≡ true
      → false ≡ true
  unfolding has_slice
  no_slice w gone h = rw gone at h

  visit-IsStep :
      (u : Bool) (edge : SliceEdge) (k : ℕ) (w : WalkState)
      → is_listed edge.target_node g.nodes ≡ true
      → is_listed edge.target_node w.visited ≡ false
      → HasIds w
      → 1 ≤ w.curr_slice
      → w.curr_slice ≤ w.curr_slice_id
      → IsStep k w (suc k) (visit true false function_of g u edge k w)
  unfolding visit
  visit-IsStep u edge zero w there new ids low high = first-IsStep edge.target_node w there new
  visit-IsStep u edge (suc k) w there new ids low high =
      let e : ltb 0 (suc k) ≡ true = ground arith in
      elim (Option-cases (get_slice w.curr_slice w.slices)) [
        | inr (s, got) ↦ rw e (rw got (fork-IsStep k edge.target_node w s there new got))
        | inl gone ↦
            let h : has_slice w.curr_slice w.slices ≡ true = ids w.curr_slice low high in
            let h' : false ≡ true = no_slice w gone h in cc
      ]

  add_fork-visited :
      (kind : SliceDependence) (w : WalkState) (o : Option Slice)
      → (add_fork false kind w o).visited ≡ w.visited
  add_fork-visited kind w none = refl
  add_fork-visited kind w (some s) = refl

  visit-visited :
      (u : Bool) (edge : SliceEdge) (k : ℕ) (w : WalkState)
      → (visit true false function_of g u edge k w).visited ≡ edge.target_node ∷ w.visited
  unfolding visit
  visit-visited u edge zero w = refl
  visit-visited u edge (suc k) w =
      let e : ltb 0 (suc k) ≡ true = ground arith in
      rw e
        (add_fork-visited edge.kind (on_stack edge.target_node w) (get_slice w.curr_slice w.slices))

  -- All targets of the edges are visited.
  abbrev pub Targets : (ℕ → Type 0) → List SliceEdge → Type 0
  Targets R = All (λ e. R e.target_node)

  pub explore-IsStep :
      (u : Bool) (es : List SliceEdge) (k : ℕ) (w : WalkState)
      → Targets (λ t. is_listed t g.nodes ≡ true) es
      → HasIds w
      → 1 ≤ w.curr_slice
      → w.curr_slice ≤ w.curr_slice_id
      → (k' : ℕ) × (w' : WalkState) × (explore true false function_of g u es k w ≡ (k', w'))
        × IsStep k w k' w'
        × Targets (λ t. is_listed t w'.visited ≡ true) es
  unfolding explore
  explore-IsStep u [] k w there ids low high = (k, w, refl, IsStep-refl k w, tt)
  explore-IsStep u (edge ∷ es) k w (here, there) ids low high =
      elim (Bool-cases (is_listed edge.target_node w.visited)) [
        | inl old ↦
            let (k', w', ran, step, all) = explore-IsStep u es k w there ids low high in
            (k', w', rw old ran, step, (step.visits edge.target_node old, all))
        | inr new ↦
            let w1 = visit true false function_of g u edge k w in
            let step1 = visit-IsStep u edge k w here new ids low high in
            let e = step1.current in
            let f = step1.forked in
            let (k', w', ran, step, all) =
              explore-IsStep u es (suc k) w1 there (step1.ids ids) (omega (arith, e, low))
                (omega (arith, e, f, high)) in
            (
              k',
              w',
              rw new ran,
              IsStep-trans k (suc k) k' w w1 w' step1 step,
              (
                step.visits edge.target_node
                    (rw (visit-visited u edge k w) (listed_self edge.target_node w.visited)),
                all,
              ),
            )
      ]
