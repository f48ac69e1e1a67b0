-- ===== src/Analyzer/SliceGraph/Compute/Enter.antt =====
-- A node that is taken from the stack, and what its edges put there (analyzer/lib/Slicing/SliceGraph.cpp).
use arthas.Prelude.{
  ℕ, zero, suc, ◌≤◌, ◌≡◌, refl, Bool, true, false, ◌==◌, ==_iff, ltb, Option, none, some, List, [],
  ◌∷◌, All, arith, ◌∙◌, Bool-cases, inl, inr, ◌⊎◌, subst,
}
use arthas.Analyzer.Slices.{Slice, get_slice, has_slice}
use arthas.Analyzer.SliceGraph.{SliceEdge, SliceGraph, is_listed}
use arthas.Analyzer.SliceGraph.Compute.{WalkState, add_fork, visit, explore, enter_node}
use arthas.Analyzer.SliceGraph.Compute.Contents.{
  unvisited, unvisited-le, listed-at, listed-cons, listed_self, any_value, any_value-change,
  any_value-new, has_slice-change, IsSlice, change-IsSlice,
}
use arthas.Analyzer.SliceGraph.Compute.Reach.{Reachable, start, IsReached}

module _ (function_of : ℕ → ℕ) (g : SliceGraph) where
  -- The value of the root in all slices, and the values of nodes that can be reached.
  abbrev pub root_value : ℕ
  root_value = (g.node_at g.root).value

  pub root_reached : IsReached g root_value
  root_reached = (g.root, start, refl)

  abbrev pub IsTodo : ℕ → Type 0
  IsTodo n = Reachable g n × (is_listed n g.nodes ≡ true)

  add_fork-vstack :
      (b : Bool) (kind : _) (w : WalkState) (o : Option Slice)
      → (add_fork b kind w o).vstack ≡ w.vstack
  add_fork-vstack b kind w none = refl
  add_fork-vstack b kind w (some s) = refl

  visit-vstack :
      (u : Bool) (edge : SliceEdge) (k : ℕ) (w : WalkState)
      → (visit true false function_of g u edge k w).vstack ≡ edge.target_node ∷ w.vstack
  unfolding visit
  visit-vstack u edge zero w = refl
  visit-vstack u edge (suc k) w =
      let e : ltb 0 (suc k) ≡ true = ground arith in
      rw e (
        add_fork-vstack false edge.kind
          (record w {
            visited = edge.target_node ∷ w.visited;
            vstack = edge.target_node ∷ w.vstack;
          })
          (get_slice w.curr_slice w.slices))

  -- What is on the stack comes from the edges.
  pub explore-All :
      (R : ℕ → Type 0) (u : Bool) (es : List SliceEdge) (k : ℕ) (w : WalkState) (k' : ℕ)
      (w' : WalkState)
      → explore true false function_of g u es k w ≡ (k', w')
      → All (λ e. R e.target_node) es
      → All R w.vstack
      → All R w'.vstack
  unfolding explore
  explore-All R u [] k w k' w' ran a s = subst (λ p. All R p.1.vstack) ran s
  explore-All R u (edge ∷ es) k w k' w' ran (here, a) s =
      elim (Bool-cases (is_listed edge.target_node w.visited)) [
        | inl old ↦ explore-All R u es k w k' w' (rw old at ran) a s
        | inr new ↦
            explore-All R u es (suc k) (visit true false function_of g u edge k w) k' w'
              (rw new at ran) a (rw (visit-vstack u edge k w) (here, s))
      ]

  -- A node that is taken from the stack.
  pub visits_entered :
      (elem n : ℕ) (rest : List ℕ) (w : WalkState)
      → is_listed n w.visited ≡ true
      → is_listed n (enter_node true false function_of g elem rest w).visited ≡ true
  unfolding enter_node
  visits_entered elem n rest w h = elim (Bool-cases (is_listed elem w.visited)) [
    | inl e ↦ rw e h
    | inr e ↦ rw e (listed-cons elem n w.visited h)
  ]

  pub entered_visits :
      (elem n : ℕ) (rest : List ℕ) (w : WalkState)
      → is_listed n (enter_node true false function_of g elem rest w).visited ≡ true
      → (elem ≡ n) ⊎ (is_listed n w.visited ≡ true)
  unfolding enter_node
  entered_visits elem n rest w h = elim (Bool-cases (is_listed elem w.visited)) [
    | inl e ↦ inr (rw e at h)
    | inr e ↦ listed-at elem n w.visited (rw e at h)
  ]

  pub entered_self :
      (elem : ℕ) (rest : List ℕ) (w : WalkState)
      → is_listed elem (enter_node true false function_of g elem rest w).visited ≡ true
  unfolding enter_node
  entered_self elem rest w = elim (Bool-cases (is_listed elem w.visited)) [
    | inl e ↦ rw e e
    | inr e ↦ rw e (listed_self elem w.visited)
  ]

  pub less_entered :
      (elem : ℕ) (rest : List ℕ) (w : WalkState)
      → unvisited (enter_node true false function_of g elem rest w).visited g.nodes
        ≤ unvisited w.visited g.nodes
  unfolding enter_node
  less_entered elem rest w =
      let le = unvisited-le elem w.visited g.nodes in
      elim (Bool-cases (is_listed elem w.visited)) [ inl e ↦ rw e (omega arith) | inr e ↦ rw e le ]

  pub keeps_entered :
      (elem v : ℕ) (rest : List ℕ) (w : WalkState)
      → any_value v w.slices ≡ true
      → any_value v (enter_node true false function_of g elem rest w).slices ≡ true
  unfolding enter_node
  keeps_entered elem v rest w h = elim (Bool-cases (elem == g.root)) [
    | inl e ↦ rw e h
    | inr e ↦ rw e (any_value-change v (g.node_at elem).value w.curr_slice w.slices h)
  ]

  pub known_entered :
      (elem : ℕ) (rest : List ℕ) (w : WalkState)
      → any_value root_value w.slices ≡ true
      → has_slice w.curr_slice w.slices ≡ true
      → any_value (g.node_at elem).value (enter_node true false function_of g elem rest w).slices
        ≡ true
  unfolding enter_node
  known_entered elem rest w root_known there = elim (Bool-cases (elem == g.root)) [
    | inl e ↦ let same : elem ≡ g.root = (==_iff elem g.root).0 e in rw e (rw same root_known)
    | inr e ↦ rw e (any_value-new (g.node_at elem).value w.curr_slice w.slices there)
  ]

  pub ids_entered :
      (elem id : ℕ) (rest : List ℕ) (w : WalkState)
      → has_slice id w.slices ≡ true
      → has_slice id (enter_node true false function_of g elem rest w).slices ≡ true
  unfolding enter_node
  ids_entered elem id rest w h = elim (Bool-cases (elem == g.root)) [
    | inl e ↦ rw e h
    | inr e ↦ rw e (has_slice-change w.curr_slice id (g.node_at elem).value w.slices ∙ h)
  ]

  pub slices_entered :
      (elem : ℕ) (rest : List ℕ) (w : WalkState)
      → Reachable g elem
      → All (IsSlice (IsReached g) root_value) w.slices
      → All
          (IsSlice (IsReached g) root_value)
          (enter_node true false function_of g elem rest w).slices
  unfolding enter_node
  slices_entered elem rest w reached all = elim (Bool-cases (elem == g.root)) [
    | inl e ↦ rw e all
    | inr e ↦ rw e (
        change-IsSlice (IsReached g) root_value (g.node_at elem).value w.curr_slice w.slices
          (elem, reached, refl) all)
  ]
