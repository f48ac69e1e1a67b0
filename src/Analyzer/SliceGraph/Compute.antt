-- ===== src/Analyzer/SliceGraph/Compute.antt =====
-- The slices of the graph (`computeSlices` of analyzer/lib/Slicing/SliceGraph.cpp). Each slice is
-- added to the slices when it is made, so that the two tests of `has` before an `add` never let one
-- be added again; they are left out.
pub mod Contents
pub mod Enter
pub mod Explore
pub mod Reach
pub mod Rounds
pub mod Walk
use arthas.Prelude.{
  ℕ, zero, suc, ◌+◌, Bool, true, false, ◌&&◌, ◌||◌, ◌==◌, ltb, not, Option, none, some, List, [],
  ◌∷◌, ◌++◌, if◌then◌else◌, ◌>>=◌,
}
use mathlib.Core.List.{reverse}
use arthas.Reactor.Platform.{Run, returned, undefined, unfinished, bind, defined}
use arthas.Analyzer.Slices.{
  SliceDependence, unknown, register_def_use, memory_dependence, control_dependence,
  interfere_dependence, na, SliceDirection, Slice, new_slice, add_value, fork, get_slice, has_slice,
  add_slice, change_slice,
}
use arthas.Analyzer.SliceGraph.{SliceEdge, SliceGraph, is_listed}

abbrev pub same_dependence : SliceDependence → SliceDependence → Bool
same_dependence unknown unknown = true
same_dependence register_def_use register_def_use = true
same_dependence memory_dependence memory_dependence = true
same_dependence control_dependence control_dependence = true
same_dependence interfere_dependence interfere_dependence = true
same_dependence _ _ = false

abbrev pub is_unknown : SliceDependence → Bool
is_unknown d = same_dependence d unknown

-- The variables of the walk; the current slice is `curr_slice`, and `visited` is a set.
pub record WalkState : Type 0 where
  pub visited : List ℕ
  pub vstack : List ℕ
  pub curr_slice : ℕ
  pub curr_slice_id : ℕ
  pub slices : List Slice

-- The values of the edges of a node, the last edge first.
unfoldable pub edges_of : (ℕ → Option SliceEdge) → List ℕ → Option (List SliceEdge)
edges_of edge_at [] = some []
edges_of edge_at (e ∷ edges) = do
  edge ← edge_at e
  rest ← edges_of edge_at edges
  some (edge ∷ rest)

abbrev pub dependence_of : Option Slice → SliceDependence
dependence_of none = unknown
dependence_of (some s) = s.dependence

-- A fork of the current slice under a new identifier, with the dependence of the edge if the
-- slice had none before this node.
abbrev pub add_fork : Bool → SliceDependence → WalkState → Option Slice → WalkState
add_fork reset kind w none = w
add_fork reset kind w (some s) =
    let id = w.curr_slice_id + 1 in
    let copy = fork s in
    let forked = if reset then record copy { dependence = kind } else copy in
    record w { curr_slice_id = id; slices = add_slice (record forked { id = id }) w.slices }

module _ (inter_procedural separate_dependence : Bool) (function_of : ℕ → ℕ) (g : SliceGraph) where
  -- `continue`: the edge is not followed.
  abbrev pub is_skipped : Bool → SliceEdge → WalkState → Bool
  is_skipped unknown_before edge w =
      (separate_dependence
        && not unknown_before
        && same_dependence edge.kind (dependence_of (get_slice w.curr_slice w.slices)))
      || (not inter_procedural
          && not (
              function_of (g.node_at edge.target_node).value
              == function_of (g.node_at g.root).value))

  -- A node that was not visited before.
  unfoldable pub visit : Bool → SliceEdge → ℕ → WalkState → WalkState
  visit unknown_before edge unexplored_edges w =
      let slice = get_slice w.curr_slice w.slices in
      let named =
        if separate_dependence && is_unknown (dependence_of slice)
        then change_slice w.curr_slice (λ s. record s { dependence = edge.kind }) w.slices
        else w.slices in
      let pushed = record w {
        visited = edge.target_node ∷ w.visited;
        vstack = edge.target_node ∷ w.vstack;
        slices = named;
      } in
      if ltb 0 unexplored_edges
      then add_fork (separate_dependence && unknown_before) edge.kind pushed
          (get_slice w.curr_slice named)
      else pushed

  -- The loop over the edges; the number of those that led to a new node.
  unfoldable pub explore : Bool → List SliceEdge → ℕ → WalkState → ℕ × WalkState
  explore unknown_before [] unexplored_edges w = (unexplored_edges, w)
  explore unknown_before (edge ∷ edges) unexplored_edges w =
      let new =
        not (is_skipped unknown_before edge w) && not (is_listed edge.target_node w.visited) in
      explore unknown_before edges (if new then suc unexplored_edges else unexplored_edges)
        (if new then visit unknown_before edge unexplored_edges w else w)

  -- The top of the stack is visited, and added to the current slice unless it is the root.
  unfoldable pub enter_node : ℕ → List ℕ → WalkState → WalkState
  enter_node elem rest w = record w {
    visited = if is_listed elem w.visited then w.visited else elem ∷ w.visited;
    vstack = rest;
    slices =
        if elem == g.root
        then w.slices
        else change_slice w.curr_slice (add_value (g.node_at elem).value) w.slices;
  }

  -- The `while` loop, one round for each `fuel`.
  unfoldable pub walk : ℕ → WalkState → Run (List Slice)
  walk zero w = unfinished
  walk (suc fuel) w = elim w.vstack [
    | [] ↦ returned w.slices
    | elem ∷ rest ↦ bind (defined (edges_of g.edge_at (g.node_at elem).edges)) λ edges.
        let entered = enter_node elem rest w in
        let unknown_before = is_unknown (dependence_of (get_slice w.curr_slice w.slices)) in
        let (unexplored_edges, w') = explore unknown_before (reverse edges) 0 entered in
        let ended = has_slice (w'.curr_slice + 1) w'.slices in
        if unexplored_edges == 0
        then (if ended
            then walk fuel (record w' { curr_slice = w'.curr_slice + 1 })
            else returned w'.slices)
        else walk fuel w'
  ]

  -- No slices are there at the start.
  unfoldable pub compute_slices : ℕ → Run (List Slice)
  compute_slices fuel = walk fuel (record {
    visited = [];
    vstack = g.root ∷ [];
    curr_slice = 1;
    curr_slice_id = 1;
    slices = new_slice 1 (g.node_at g.root).value g.direction na unknown ∷ [];
  })
