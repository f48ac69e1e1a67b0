-- ===== src/Analyzer/SliceGraph.antt =====
-- The slice graph (analyzer/lib/Slicing/SliceGraph.cpp and its header). Nodes and edges are numbers,
-- and the graph says what is stored at them; a deleted edge is none. Reading a deleted edge, or
-- behind the end of a vector, is undefined.
pub mod Edges
pub mod Compute
use arthas.Prelude.{
  ℕ, zero, suc, ◌+◌, ℤ, pos, Bool, true, false, ◌||◌, ◌==◌, Option, none, some, List, [], ◌∷◌, ◌++◌,
  get_elem?, if◌then◌else◌, ◌>>=◌,
}
use mathlib.Core.Option
use arthas.Analyzer.Slices.{SliceDependence, SliceDirection}

pub record SliceEdge : Type 0 where
  pub target_node : ℕ
  pub kind : SliceDependence
  pub distance : ℤ

pub record SliceNode : Type 0 where
  pub edges : List ℕ
  pub value : ℕ
  pub depth : ℕ
  pub is_multi : Bool
  pub value_list : List ℕ

pub record SliceGraph : Type 0 where
  pub nodes : List ℕ
  pub edges : List ℕ
  pub root : ℕ
  pub direction : SliceDirection
  pub node_map : List (ℕ × ℕ)
  pub slice_id : ℕ
  pub node_at : ℕ → SliceNode
  pub edge_at : ℕ → Option SliceEdge
  pub next_node : ℕ
  pub next_edge : ℕ

abbrev pub new_node : ℕ → SliceNode
new_node val = record {
  edges = [];
  value = val;
  depth = 0;
  is_multi = false;
  value_list = val ∷ [];
}

abbrev pub put_node : ℕ → SliceNode → SliceGraph → SliceGraph
put_node n node g = record g { node_at = λ m. if m == n then node else g.node_at m }

abbrev pub put_edge : ℕ → Option SliceEdge → SliceGraph → SliceGraph
put_edge e edge g = record g { edge_at = λ d. if d == e then edge else g.edge_at d }

-- `find(...) != end()`.
unfoldable pub is_listed : ℕ → List ℕ → Bool
is_listed n [] = false
is_listed n (m ∷ l) = m == n || is_listed n l

-- The place of the first equal element, and a vector without the element at a place.
unfoldable pub position : ℕ → List ℕ → Option ℕ
position n [] = none
position n (m ∷ l) = let rest = Option.map suc (position n l) in if m == n then some 0 else rest

unfoldable pub erase_at : ℕ → List ℕ → List ℕ
erase_at i [] = []
erase_at zero (m ∷ l) = l
erase_at (suc i) (m ∷ l) = m ∷ erase_at i l

abbrev pub erase_found : Option ℕ → List ℕ → Bool × List ℕ
erase_found none l = (false, l)
erase_found (some i) l = (true, erase_at i l)

-- The search and the `erase` of `removeEdge`, of a node and of the graph.
abbrev pub erase_first : ℕ → List ℕ → Bool × List ℕ
erase_first n l = erase_found (position n l) l

unfoldable pub find_node : ℕ → List (ℕ × ℕ) → Option ℕ
find_node val [] = none
find_node val ((v, n) ∷ node_map) =
    let rest = find_node val node_map in if v == val then some n else rest

-- `emplace`: a value that is there keeps its node.
abbrev pub emplace_node : ℕ → ℕ → List (ℕ × ℕ) → Option ℕ → List (ℕ × ℕ)
emplace_node val n node_map (some m) = node_map
emplace_node val n node_map none = (val, n) ∷ node_map

unfoldable pub add_node : ℕ → SliceGraph → Bool × SliceGraph
unfolding is_listed find_node
add_node n g =
    let val = (g.node_at n).value in
    if is_listed n g.nodes then (false, g) else (
      true,
      record g {
        nodes = g.nodes ++ n ∷ [];
        node_map = emplace_node val n g.node_map (find_node val g.node_map);
      },
    )

abbrev pub create_unless : ℕ → SliceGraph → Option ℕ → ℕ × SliceGraph
create_unless val g (some n) = (n, g)
create_unless val g none =
    let n = g.next_node in
    (
      n,
      record (put_node n (new_node val) g) {
        node_map = (val, n) ∷ g.node_map;
        nodes = g.nodes ++ n ∷ [];
        next_node = suc n;
      },
    )

unfoldable pub get_or_create_node : ℕ → SliceGraph → ℕ × SliceGraph
unfolding find_node
get_or_create_node val g = create_unless val g (find_node val g.node_map)

-- The first place, among the edges, of one to the node.
unfoldable pub edge_to : (ℕ → Option SliceEdge) → ℕ → List ℕ → Option (Option ℕ)
edge_to edge_at node [] = some none
edge_to edge_at node (e ∷ edges) = do
  edge ← edge_at e
  if edge.target_node == node
      then some (some 0)
      else do rest ← edge_to edge_at node edges; some (Option.map suc rest)

abbrev pub is_at : Option ℕ → Bool
is_at none = false
is_at (some i) = true

unfoldable pub has_edge_to : ℕ → ℕ → SliceGraph → Option Bool
unfolding edge_to
has_edge_to n node g = do i ← edge_to g.edge_at node (g.node_at n).edges; some (is_at i)

unfoldable pub find_edges_to : (ℕ → Option SliceEdge) → ℕ → List ℕ → Option (List ℕ)
find_edges_to edge_at node [] = some []
find_edges_to edge_at node (e ∷ edges) = do
  edge ← edge_at e
  rest ← find_edges_to edge_at node edges
  some (if edge.target_node == node then e ∷ rest else rest)

-- A new edge of `node1`, listed by the graph as well.
abbrev pub new_edge : ℕ → ℕ → SliceDependence → SliceGraph → SliceGraph
new_edge node1 node2 kind g =
    let e = g.next_edge in
    let node = g.node_at node1 in
    let stored =
      put_edge e (some (record { target_node = node2; kind = kind; distance = pos 0 })) g in
    record (put_node node1 (record node { edges = node.edges ++ e ∷ [] }) stored) {
      edges = g.edges ++ e ∷ [];
      next_edge = suc e;
    }

unfoldable pub connect : ℕ → ℕ → SliceDependence → SliceGraph → Option (Bool × SliceGraph)
unfolding has_edge_to
connect node1 node2 kind g =
    if node1 == node2 || (g.node_at node1).value == (g.node_at node2).value
    then some (false, g)
    else do
      there ← has_edge_to node1 node2 g
      some (if there then (false, g) else (true, new_edge node1 node2 kind g))

-- `it` is the place `i`. After the `erase`, `*it` is the edge that moved there.
unfoldable pub disconnect_at : ℕ → ℕ → SliceGraph → Option SliceGraph
unfolding erase_at position
disconnect_at node1 i g =
    let node = g.node_at node1 in
    let edges = erase_at i node.edges in
    do
      e ← get_elem? edges i
      some (record (put_edge e none (put_node node1 (record node { edges = edges }) g)) {
        edges = (erase_first e g.edges).1;
      })

abbrev pub disconnect_found : ℕ → SliceGraph → Option ℕ → Option (Bool × SliceGraph)
disconnect_found node1 g none = some (false, g)
disconnect_found node1 g (some i) = do g' ← disconnect_at node1 i g; some (true, g')

unfoldable pub disconnect : ℕ → ℕ → SliceGraph → Option (Bool × SliceGraph)
unfolding edge_to disconnect_at
disconnect node1 node2 g = do
  i ← edge_to g.edge_at node2 (g.node_at node1).edges
  disconnect_found node1 g i
