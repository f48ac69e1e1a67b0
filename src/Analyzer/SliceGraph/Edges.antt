-- ===== src/Analyzer/SliceGraph/Edges.antt =====
-- `disconnect` (analyzer/lib/Slicing/SliceGraph.cpp).
use arthas.Prelude.{
  ℕ, zero, suc, ◌≡◌, refl, true, ◌==◌, none, some, List, [], ◌∷◌, get_elem?, arith, ◌∙◌,
}
use arthas.Analyzer.SliceGraph.{
  SliceGraph, put_node, put_edge, erase_first, erase_at, edge_to, disconnect_at, disconnect,
}

get_elem?-erase_at : (i : ℕ) (l : List ℕ) → get_elem? (erase_at i l) i ≡ get_elem? l (suc i)
unfolding erase_at
get_elem?-erase_at zero [] = refl
get_elem?-erase_at (suc i) [] = refl
get_elem?-erase_at zero (m ∷ l) = refl
get_elem?-erase_at (suc i) (m ∷ l) = get_elem?-erase_at i l

-- The edge `e` is deleted, and still an edge of the node.
pub record Dangles (node e : ℕ) (g : SliceGraph) : Type 0 where
  pub place : ℕ
  pub listed : get_elem? (g.node_at node).edges place ≡ some e
  pub deleted : g.edge_at e ≡ none

-- When an edge of `node1` leads to `node2`, the first one at place `i`: without an edge behind it
-- `disconnect` is undefined, and with an edge behind it `disconnect` returns true, deletes that
-- other edge, and leaves it among the edges of `node1` (`Dangles`).
pub disconnect-Dangles :
    (node1 node2 i : ℕ) (g : SliceGraph)
    → edge_to g.edge_at node2 (g.node_at node1).edges ≡ some (some i)
    → (get_elem? (g.node_at node1).edges (suc i) ≡ none → disconnect node1 node2 g ≡ none)
      × ((e : ℕ)
          → get_elem? (g.node_at node1).edges (suc i) ≡ some e
          → (g' : SliceGraph) × (disconnect node1 node2 g ≡ some (true, g')) × Dangles node1 e g')
unfolding disconnect disconnect_at
disconnect-Dangles node1 node2 i g found =
    let node = g.node_at node1 in
    let next = get_elem?-erase_at i node.edges in
    let same : node1 == node1 ≡ true = ground arith in
    (
      λ last. rw found (rw (next ∙ last)),
      λ e at.
          let removed = put_node node1 (record node { edges = erase_at i node.edges }) g in
          let gone : e == e ≡ true = ground arith in
          (
            record (put_edge e none removed) { edges = (erase_first e g.edges).1 },
            rw found (rw (next ∙ at)),
            record { place = i; listed = rw same (next ∙ at); deleted = rw gone },
          ),
    )
