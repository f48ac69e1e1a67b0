-- ===== src/Analyzer/SliceGraph/Compute/Walk.antt =====
-- The walk of `computeSlices` with the default flags (analyzer/lib/Slicing/SliceGraph.cpp).
use arthas.Prelude.{
  ℕ, ◌+◌, ◌≤◌, ◌<◌, ◌≡◌, refl, true, false, ltb, List, [], ◌∷◌, All, length, arith, ap, sym, ◌∙◌,
  Bool-cases, inl, inr, ◌⊎◌, subst, some_inj,
}
use arthas.Analyzer.Slices.{Slice, has_slice}
use arthas.Analyzer.SliceGraph.{SliceEdge, SliceGraph, is_listed}
use arthas.Analyzer.SliceGraph.Compute.{WalkState, enter_node}
use arthas.Analyzer.SliceGraph.Compute.Contents.{listed-at, any_value, IsSlice}
use arthas.Analyzer.SliceGraph.Compute.Reach.{
  All-has_target, All-target, Reachable, start, along, EdgesAre, IsReached,
}
use arthas.Analyzer.SliceGraph.Compute.Enter.{
  root_value, root_reached, IsTodo, visits_entered, entered_visits, entered_self, keeps_entered,
  known_entered, ids_entered, slices_entered,
}
use arthas.Analyzer.SliceGraph.Compute.Explore.{IsStep}

listed-empty : (n : ℕ) (l : List ℕ) → l ≡ [] → is_listed n l ≡ true → false ≡ true
unfolding is_listed
listed-empty n l empty s = rw empty at s

-- Each slice is the value of the root, and then values of nodes that can be reached; and each of
-- these values is in a slice.
pub record AreSlices (g : SliceGraph) (slices : List Slice) : Type 0 where
  pub values : All (IsSlice (IsReached g) (g.node_at g.root).value) slices
  pub covers : (n : ℕ) → Reachable g n → any_value (g.node_at n).value slices ≡ true

no_stack : (c id : ℕ) (l : List ℕ) → length l + c ≡ id + 1 → id < c → l ≡ []
no_stack c id [] count lt = refl
no_stack c id (x ∷ l) count lt = let h : 0 < 0 = omega (arith, count, lt) in ground (arith, h)

module _ (function_of : ℕ → ℕ) (g : SliceGraph) where
  -- The node is behind the walk: its value is in a slice, and its edges were followed.
  pub record IsDone (w : WalkState) (n : ℕ) : Type 0 where
    known : any_value (g.node_at n).value w.slices ≡ true
    edges : List SliceEdge
    edges_are : EdgesAre g n edges
    followed : All (λ e. is_listed e.target_node w.visited ≡ true) edges

  pub record IsWalk (w : WalkState) : Type 0 where
    pub count : length w.vstack + w.curr_slice ≡ w.curr_slice_id + 1
    pub low : 1 ≤ w.curr_slice
    pub todo : All (IsTodo function_of g) w.vstack
    pub visits : (n : ℕ) → is_listed n w.visited ≡ true → (is_listed n w.vstack ≡ true) ⊎ IsDone w n
    pub root_seen : (is_listed g.root w.visited ≡ true) ⊎ (is_listed g.root w.vstack ≡ true)
    pub root_known : any_value (root_value function_of g) w.slices ≡ true
    pub ids : (id : ℕ) → 1 ≤ id → id ≤ w.curr_slice_id → has_slice id w.slices ≡ true
    pub slices : All (IsSlice (IsReached g) (root_value function_of g)) w.slices

  IsDone-later :
      (w w' : WalkState) (n : ℕ)
      → ((v : ℕ) → any_value v w.slices ≡ true → any_value v w'.slices ≡ true)
      → ((m : ℕ) → is_listed m w.visited ≡ true → is_listed m w'.visited ≡ true)
      → IsDone w n
      → IsDone w' n
  IsDone-later w w' n keeps visits d = record {
    known = keeps (g.node_at n).value d.known;
    edges = d.edges;
    edges_are = d.edges_are;
    followed =
        All-has_target (λ t. is_listed t w'.visited ≡ true) d.edges
          λ t h. visits t (All-target (λ m. is_listed m w.visited ≡ true) t d.edges d.followed h);
  }

  abbrev pub entered : ℕ → List ℕ → WalkState → WalkState
  entered = enter_node true false function_of g

  -- One round keeps the invariant, whichever slice is the next.
  pub round-IsWalk :
      (w : WalkState) (elem : ℕ) (rest : List ℕ) (es : List SliceEdge) (k : ℕ) (w' : WalkState)
      (c : ℕ)
      → w.vstack ≡ elem ∷ rest
      → IsWalk w
      → EdgesAre g elem es
      → IsStep function_of g
          (IsReached g)
          (root_value function_of g)
          (root_reached function_of g)
          0
          (entered elem rest w)
          k
          w'
      → All (λ e. is_listed e.target_node w'.visited ≡ true) es
      → All (IsTodo function_of g) w'.vstack
      → 1 ≤ c
      → length w'.vstack + c ≡ w'.curr_slice_id + 1
      → IsWalk (record w' { curr_slice = c })
  unfolding enter_node
  round-IsWalk w elem rest es k w' c top inv edges step followed todo low count =
      let reached = (subst (All (IsTodo function_of g)) top inv.todo).0.0 in
      let before = inv.count in
      let long = ap length top in
      let there = inv.ids w.curr_slice inv.low (omega (arith, before, long)) in
      let keeps : (v : ℕ) → any_value v w.slices ≡ true → any_value v w'.slices ≡ true =
        λ v h. step.keeps v (keeps_entered function_of g elem v rest w h) in
      let visits : (m : ℕ) → is_listed m w.visited ≡ true → is_listed m w'.visited ≡ true =
        λ m h. step.visits m (visits_entered function_of g elem m rest w h) in
      let elem_visited = step.visits elem (entered_self function_of g elem rest w) in
      let done : IsDone (record w' { curr_slice = c }) elem = record {
        known =
            step.keeps (g.node_at elem).value
              (known_entered function_of g elem rest w inv.root_known there);
        edges = es;
        edges_are = edges;
        followed = followed;
      } in
      record {
        count = count;
        low = low;
        todo = todo;
        visits = λ n h. elim (step.visited_new n h) [
          | inr s ↦ inl s
          | inl h0 ↦ elim (entered_visits function_of g elem n rest w h0) [
            | inl same ↦ inr (subst (IsDone (record w' { curr_slice = c })) same done)
            | inr h1 ↦ elim (inv.visits n h1) [
              | inr d ↦ inr (IsDone-later w (record w' { curr_slice = c }) n keeps visits d)
              | inl s ↦ elim (listed-at elem n rest (rw top at s)) [
                | inl same ↦ inr (subst (IsDone (record w' { curr_slice = c })) same done)
                | inr s1 ↦ inl (step.stacks n s1)
              ]
            ]
          ]
        ];
        root_seen = elim inv.root_seen [
          | inl h ↦ inl (visits g.root h)
          | inr s ↦ elim (listed-at elem g.root rest (rw top at s)) [
            | inl same ↦ inl (subst (λ n. is_listed n w'.visited ≡ true) same elem_visited)
            | inr s1 ↦ inr (step.stacks g.root s1)
          ]
        ];
        root_known = keeps (g.node_at g.root).value inv.root_known;
        ids =
            step.ids
              (λ id low1 high. ids_entered function_of g elem id rest w (inv.ids id low1 high));
        slices = step.slices (slices_entered function_of g elem rest w reached inv.slices);
      }

  -- When the stack is empty, all nodes that can be reached were visited.
  all_visited :
      (w : WalkState) (n : ℕ)
      → w.vstack ≡ []
      → IsWalk w
      → Reachable g n
      → is_listed n w.visited ≡ true
  unfolding is_listed
  all_visited w _ empty inv start = elim inv.root_seen [
    | inl h ↦ h
    | inr s ↦ let h : false ≡ true = rw empty at s in cc
  ]
  all_visited w _ empty inv (along m n es reached edges there) =
      elim (inv.visits m (all_visited w m empty inv reached)) [
        | inl s ↦ let h : false ≡ true = rw empty at s in cc
        | inr d ↦
            let same : d.edges ≡ es = some_inj (sym d.edges_are ∙ edges) in
            All-target (λ t. is_listed t w.visited ≡ true) n es
              (subst (All (λ e. is_listed e.target_node w.visited ≡ true)) same d.followed) there
      ]

  pub walk-end : (w : WalkState) → w.vstack ≡ [] → IsWalk w → AreSlices g w.slices
  walk-end w empty inv = record {
    values = inv.slices;
    covers = λ n reached. elim (inv.visits n (all_visited w n empty inv reached)) [
      | inl s ↦ let h : false ≡ true = listed-empty n w.vstack empty s in cc
      | inr d ↦ d.known
    ];
  }

  pub IsWalk-end :
      (w : WalkState) → IsWalk w → has_slice w.curr_slice w.slices ≡ false → w.vstack ≡ []
  IsWalk-end w inv gone =
      no_stack w.curr_slice w.curr_slice_id w.vstack inv.count
        (elim (Bool-cases (ltb w.curr_slice_id w.curr_slice)) [
          | inl lt ↦ ground (arith, lt)
          | inr ge ↦
              let there = inv.ids w.curr_slice inv.low (ground (arith, ge)) in
              let h : false ≡ true = sym gone ∙ there in cc
        ])
