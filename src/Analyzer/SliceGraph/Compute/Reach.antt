-- ===== src/Analyzer/SliceGraph/Compute/Reach.antt =====
-- The nodes of a slice graph that can be reached (analyzer/lib/Slicing/SliceGraph.cpp).
use arthas.Prelude.{
  ℕ, ◌≡◌, refl, Bool, true, false, ◌||◌, ◌==◌, ==_iff, some, List, [], ◌∷◌, All, arith, Bool-cases,
  inl, inr, subst,
}
use arthas.Analyzer.SliceGraph.{SliceEdge, SliceGraph, is_listed}
use arthas.Analyzer.SliceGraph.Compute.{edges_of}

-- Whether an edge leads to the node.
unfoldable pub has_target : ℕ → List SliceEdge → Bool
has_target t [] = false
has_target t (e ∷ es) = e.target_node == t || has_target t es

pub All-has_target :
    (R : ℕ → Type 0) (es : List SliceEdge)
    → ((t : ℕ) → has_target t es ≡ true → R t)
    → All (λ e. R e.target_node) es
unfolding has_target
All-has_target R [] h = tt
All-has_target R (e ∷ es) h =
    let same : e.target_node == e.target_node ≡ true = ground arith in
    (
      h e.target_node (rw same refl),
      All-has_target R es λ t there.
          h t (elim (Bool-cases (e.target_node == t)) [ inl f ↦ rw f refl | inr f ↦ rw f there ]),
    )

pub All-target :
    (R : ℕ → Type 0) (t : ℕ) (es : List SliceEdge)
    → All (λ e. R e.target_node) es
    → has_target t es ≡ true
    → R t
unfolding has_target
All-target R t [] a h = let h' : false ≡ true = h in cc
All-target R t (e ∷ es) (here, a) h = elim (Bool-cases (e.target_node == t)) [
  | inl f ↦ subst R ((==_iff e.target_node t).0 f) here
  | inr f ↦ All-target R t es a (rw f at h)
]

module _ (g : SliceGraph) where
  abbrev pub EdgesAre : ℕ → List SliceEdge → Type 0
  EdgesAre n es = edges_of g.edge_at (g.node_at n).edges ≡ some es

  -- The nodes that edges lead to from the root.
  pub data Reachable : ℕ → Type 0 where
    start : Reachable g.root
    along :
        (n t : ℕ) (es : List SliceEdge)
        → Reachable n
        → EdgesAre n es
        → has_target t es ≡ true
        → Reachable t

  -- The root is a node of the graph, and no edge of a node is deleted or leads out of the graph.
  pub record IsClosed : Type 0 where
    pub root_in : is_listed g.root g.nodes ≡ true
    pub edges_in :
        (n : ℕ)
        → is_listed n g.nodes ≡ true
        → (es : List SliceEdge) × EdgesAre n es
          × All (λ e. is_listed e.target_node g.nodes ≡ true) es

  -- A value of a node that can be reached.
  abbrev pub IsReached : ℕ → Type 0
  IsReached v = (n : ℕ) × Reachable n × ((g.node_at n).value ≡ v)
