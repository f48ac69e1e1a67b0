-- ===== src/Examples/SliceGraph.antt =====
-- A slice graph in which both the root and a node below it have two edges.
use arthas.Prelude.{
  ℕ, ◌+◌, ◌≡◌, refl, pos, true, false, none, some, List, [], ◌∷◌, map, arith, get_elem?, ◌==◌,
  if◌then◌else◌, Bool-cases, inl, inr,
}
use arthas.Reactor.Platform.{returned}
use arthas.Analyzer.Slices.{
  Slice, backward, register_def_use, memory_dependence, copy_values, fork, get_slice, has_slice,
  change_slice,
}
use arthas.Analyzer.SliceGraph.{SliceEdge, SliceGraph, is_listed, new_node, disconnect, edge_to}
use arthas.Analyzer.SliceGraph.Edges.{Dangles, disconnect-Dangles}
use arthas.Analyzer.SliceGraph.Compute.{edges_of, visit, explore, enter_node, walk, compute_slices}
use arthas.Analyzer.SliceGraph.Compute.Reach.{IsClosed}
use arthas.Analyzer.SliceGraph.Compute.Walk.{AreSlices}
use arthas.Analyzer.SliceGraph.Compute.Rounds.{compute_slices-AreSlices}

abbrev edge_list : List SliceEdge
edge_list =
    record { target_node = 1; kind = register_def_use; distance = pos 0 }
    ∷ record { target_node = 2; kind = memory_dependence; distance = pos 0 }
    ∷ record { target_node = 3; kind = register_def_use; distance = pos 0 }
    ∷ record { target_node = 4; kind = register_def_use; distance = pos 0 }
    ∷ []

-- The node 0 has edges to 1 and 2, and 1 has edges to 3 and 4.
abbrev node_edges : ℕ → List ℕ
node_edges n = if n == 0 then 0 ∷ 1 ∷ [] else (if n == 1 then 2 ∷ 3 ∷ [] else [])

abbrev branches : SliceGraph
branches = record {
  nodes = 0 ∷ 1 ∷ 2 ∷ 3 ∷ 4 ∷ [];
  edges = 0 ∷ 1 ∷ 2 ∷ 3 ∷ [];
  root = 0;
  direction = backward;
  node_map = (10, 0) ∷ (11, 1) ∷ (12, 2) ∷ (13, 3) ∷ (14, 4) ∷ [];
  slice_id = 1;
  node_at = λ n. record (new_node (10 + n)) { edges = node_edges n };
  edge_at = get_elem? edge_list;
  next_node = 5;
  next_edge = 4;
}

disconnect-Dangles_example :
    (get_elem? (branches.node_at 0).edges 1 ≡ none → disconnect 0 1 branches ≡ none)
    × ((e : ℕ)
        → get_elem? (branches.node_at 0).edges 1 ≡ some e
        → (g' : SliceGraph) × (disconnect 0 1 branches ≡ some (true, g')) × Dangles 0 e g')
unfolding edge_to
disconnect-Dangles_example = disconnect-Dangles 0 1 0 branches refl

branches-IsClosed : IsClosed branches
unfolding is_listed edges_of
branches-IsClosed = record {
  root_in = refl;
  edges_in = λ n there. elim (Bool-cases (n == 0)) [
    | inl e ↦ rw e (_, refl, (refl, (refl, tt)))
    | inr e ↦ elim (Bool-cases (n == 1)) [
      | inl f ↦ rw e (rw f (_, refl, (refl, (refl, tt))))
      | inr f ↦ rw e (rw f ([], refl, tt))
    ]
  ];
}

compute_slices-AreSlices_example :
    (slices : List Slice) × (compute_slices true false (λ v. 0) branches 7 ≡ returned slices)
    × AreSlices branches slices
compute_slices-AreSlices_example =
    compute_slices-AreSlices (λ v. 0) branches 7 branches-IsClosed (omega arith)

abbrev values_of : Slice → List ℕ
values_of s = map (λ p. p.0) s.dep_vals

-- The last slice has 11 before 12, although no edge leads from one to the other, and the one before
-- has 14 right behind the root.
branches_slices :
    (slices : List Slice) × (compute_slices true false (λ v. 0) branches 7 ≡ returned slices)
    × (map values_of slices ≡ (10 ∷ 11 ∷ 13 ∷ []) ∷ (10 ∷ 14 ∷ []) ∷ (10 ∷ 11 ∷ 12 ∷ []) ∷ [])
unfolding compute_slices walk explore visit enter_node edges_of is_listed get_slice has_slice
    change_slice fork copy_values
branches_slices = (_, refl, refl)
