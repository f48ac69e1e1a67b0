-- ===== src/Analyzer/SliceGraph/Compute/Rounds.antt =====
-- The rounds of the walk of `computeSlices` with the default flags (analyzer/lib/Slicing/SliceGraph.cpp).
use arthas.Prelude.{
  ℕ, zero, suc, ◌+◌, ◌≤◌, ◌<◌, ◌≡◌, refl, Bool, true, false, ◌==◌, List, [], ◌∷◌, All, length,
  arith, if◌then◌else◌, ap, ◌∙◌, Bool-cases, inl, inr, ◌⊎◌, subst,
}
use arthas.Prelude.Sort.{All-reverse}
use mathlib.Core.List.{reverse, reverse-reverse}
use arthas.Reactor.Platform.{Run, returned}
use arthas.Analyzer.Slices.{Slice, get_slice, has_slice}
use arthas.Analyzer.SliceGraph.{SliceEdge, SliceGraph, is_listed}
use arthas.Analyzer.SliceGraph.Compute.{
  WalkState, explore, enter_node, walk, compute_slices, is_unknown, dependence_of,
}
use arthas.Analyzer.SliceGraph.Compute.Contents.{unvisited, unvisited-length, any_value, has_value}
use arthas.Analyzer.SliceGraph.Compute.Reach.{
  All-has_target, All-target, start, along, EdgesAre, IsClosed, IsReached,
}
use arthas.Analyzer.SliceGraph.Compute.Enter.{
  root_value, root_reached, IsTodo, explore-All, less_entered, ids_entered,
}
use arthas.Analyzer.SliceGraph.Compute.Walk.{
  AreSlices, IsWalk, entered, round-IsWalk, walk-end, IsWalk-end,
}
use arthas.Analyzer.SliceGraph.Compute.Explore.{explore-IsStep}

List-cases : (l : List ℕ) → (l ≡ []) ⊎ ((x : ℕ) × (rest : List ℕ) × (l ≡ x ∷ rest))
List-cases [] = inl refl
List-cases (x ∷ rest) = inr (x, rest, refl)

module _ (function_of : ℕ → ℕ) (g : SliceGraph) where
  abbrev next_slice : WalkState → WalkState
  next_slice w = record w { curr_slice = w.curr_slice + 1 }

  -- How a round goes on, with `k` new nodes on the stack.
  abbrev go_on : ℕ → ℕ → WalkState → Run (List Slice)
  go_on fuel k w =
      let ended = has_slice (w.curr_slice + 1) w.slices in
      if k == 0
      then (if ended then walk true false function_of g fuel (next_slice w) else returned w.slices)
      else walk true false function_of g fuel w

  abbrev is_unknown_in : WalkState → Bool
  is_unknown_in w = is_unknown (dependence_of (get_slice w.curr_slice w.slices))

  walk-empty :
      (fuel : ℕ) (w : WalkState)
      → w.vstack ≡ []
      → walk true false function_of g (suc fuel) w ≡ returned w.slices
  unfolding walk
  walk-empty fuel w empty = rw empty refl

  walk-go_on :
      (fuel : ℕ) (w : WalkState) (elem : ℕ) (rest : List ℕ) (es : List SliceEdge) (k : ℕ)
      (w' : WalkState)
      → w.vstack ≡ elem ∷ rest
      → EdgesAre g elem es
      → explore true false function_of g
          (is_unknown_in w)
          (reverse es)
          0
          (entered function_of g elem rest w)
        ≡ (k, w')
      → walk true false function_of g (suc fuel) w ≡ go_on fuel k w'
  unfolding walk enter_node
  walk-go_on fuel w elem rest es k w' top edges ran = rw top (rw edges (rw ran refl))

  record IsRound (w : WalkState) : Type 0 where
    k : ℕ
    w' : WalkState
    goes : (fuel : ℕ) → walk true false function_of g (suc fuel) w ≡ go_on fuel k w'
    less :
        length w'.vstack + unvisited w'.visited g.nodes
        < length w.vstack + unvisited w.visited g.nodes
    leaf : k ≡ 0 → IsWalk function_of g (next_slice w')
    inner : 1 ≤ k → IsWalk function_of g w'

  walk-IsRound :
      (w : WalkState) (elem : ℕ) (rest : List ℕ)
      → IsClosed g
      → IsWalk function_of g w
      → w.vstack ≡ elem ∷ rest
      → IsRound w
  unfolding enter_node
  walk-IsRound w elem rest closed inv top =
      let ((reached, inside), todo) = subst (All (IsTodo function_of g)) top inv.todo in
      let (es, edges, targets) = closed.edges_in elem inside in
      let count = inv.count in
      let low = inv.low in
      let long = ap length top in
      let less = less_entered function_of g elem rest w in
      let (k, w', ran, step, followed) =
        explore-IsStep function_of g (IsReached g) (root_value function_of g)
          (root_reached function_of g) (is_unknown_in w) (reverse es) 0
          (entered function_of g elem rest w)
          (All-reverse (λ e. is_listed e.target_node g.nodes ≡ true) es targets)
          (λ id l h. ids_entered function_of g elem id rest w (inv.ids id l h)) inv.low
          (omega (arith, count, long)) in
      let measure = step.measure in
      let pushed = step.pushed in
      let current = step.current in
      let forked = step.forked in
      let followed' =
        subst (All (λ e. is_listed e.target_node w'.visited ≡ true)) (reverse-reverse es)
          (All-reverse (λ e. is_listed e.target_node w'.visited ≡ true) (reverse es) followed) in
      let todo' =
        explore-All function_of g (IsTodo function_of g) (is_unknown_in w) (reverse es) 0
          (entered function_of g elem rest w) k w' ran
          (All-reverse (λ e. IsTodo function_of g e.target_node) es
            (All-has_target (IsTodo function_of g) es λ t there. (
              along elem t es reached edges there,
              All-target (λ n. is_listed n g.nodes ≡ true) t es targets there,
            )))
          todo in
      record {
        k = k;
        w' = w';
        goes = λ fuel. walk-go_on fuel w elem rest es k w' top edges ran;
        less = omega (arith, long, measure, less);
        leaf = λ none_left.
            round-IsWalk function_of g w elem rest es k w' (w'.curr_slice + 1) top inv edges step
              followed' todo' (omega arith)
              (omega (arith, count, long, pushed, current, forked, none_left));
        inner = λ some_left.
            round-IsWalk function_of g w elem rest es k w' w'.curr_slice top inv edges step
              followed' todo' (omega (arith, low, current))
              (omega (arith, count, long, pushed, current, forked, some_left));
      }

  walk-AreSlices :
      (fuel : ℕ) (w : WalkState)
      → IsClosed g
      → IsWalk function_of g w
      → length w.vstack + unvisited w.visited g.nodes < fuel
      → (slices : List Slice) × (walk true false function_of g fuel w ≡ returned slices)
        × AreSlices g slices
  walk-AreSlices zero w closed inv enough =
      let h : 0 < 0 = omega (arith, enough) in ground (arith, h)
  walk-AreSlices (suc fuel) w closed inv enough = elim (List-cases w.vstack) [
    | inl empty ↦ (w.slices, walk-empty fuel w empty, walk-end function_of g w empty inv)
    | inr (elem, rest, top) ↦
        let r = walk-IsRound w elem rest closed inv top in
        let less = r.less in
        elim (Bool-cases (r.k == 0)) [
          | inl none_left ↦
              let leaf = r.leaf (ground (arith, none_left)) in
              elim (Bool-cases (has_slice (r.w'.curr_slice + 1) r.w'.slices)) [
                | inl there ↦
                    let (slices, ran, are) =
                      walk-AreSlices fuel (next_slice r.w') closed leaf
                        (omega (arith, enough, less)) in
                    (slices, r.goes fuel ∙ rw none_left (rw there ran), are)
                | inr gone ↦ (
                  r.w'.slices,
                  r.goes fuel ∙ rw none_left (rw gone refl),
                  walk-end function_of g (next_slice r.w')
                      (IsWalk-end function_of g (next_slice r.w') leaf gone) leaf,
                )
              ]
          | inr some_left ↦
              let (slices, ran, are) =
                walk-AreSlices fuel r.w' closed (r.inner (ground (arith, some_left)))
                  (omega (arith, enough, less)) in
              (slices, r.goes fuel ∙ rw some_left ran, are)
        ]
  ]

  -- In a graph whose root is one of its nodes, and in which no edge of a node is deleted or leads
  -- to something that is not a node (`IsClosed`), `computeSlices` with the default flags returns
  -- within any fuel above one more than the number of nodes; each slice is the value of the root
  -- and then values of nodes that edges lead to from the root, and the value of each such node is
  -- in a slice.
  pub compute_slices-AreSlices :
      (fuel : ℕ)
      → IsClosed g
      → length g.nodes + 1 < fuel
      → (slices : List Slice) × (compute_slices true false function_of g fuel ≡ returned slices)
        × AreSlices g slices
  unfolding compute_slices is_listed any_value has_value has_slice get_slice
  compute_slices-AreSlices fuel closed enough =
      let le = unvisited-length g.nodes in
      let same : g.root == g.root ≡ true = ground arith in
      walk-AreSlices fuel _ closed
        (record {
          count = refl;
          low = omega arith;
          todo = ((start, closed.root_in), tt);
          visits = λ n h. let h' : false ≡ true = h in cc;
          root_seen = inr (rw same refl);
          root_known =
              let one : root_value function_of g == root_value function_of g ≡ true =
                ground arith in
              rw one refl;
          ids = λ id low high. let one : 1 == id ≡ true = ground arith in rw one refl;
          slices = (
            record {
              root_is = refl;
              rest = [];
              starts = refl;
              values = (root_reached function_of g, tt);
            },
            tt,
          );
        })
        (omega (arith, le, enough))
