-- ===== src/Analyzer/SliceGraph/Compute/Contents.antt =====
-- What slices hold (analyzer/lib/Slicing/Slice.cpp), and how many nodes were not visited.
use arthas.Prelude.{
  ℕ, suc, ◌≤◌, ◌<◌, ◌≡◌, refl, ℤ, pos, Bool, true, false, ◌||◌, ◌==◌, ==_iff, some, List, [], ◌∷◌,
  ◌++◌, All, All-append, length, ◌⊎◌, arith, if◌then◌else◌, ap, Bool-cases, inl, inr, subst,
  some_inj,
}
use arthas.Analyzer.Slices.{
  Slice, add_value, copy_values, fork, get_slice, has_slice, add_slice, change_slice,
}
use arthas.Analyzer.SliceGraph.{is_listed}

-- The number of listed nodes that were not visited.
unfoldable pub unvisited : List ℕ → List ℕ → ℕ
unvisited visited [] = 0
unvisited visited (n ∷ nodes) =
    let rest = unvisited visited nodes in if is_listed n visited then rest else suc rest

pub unvisited-le :
    (n : ℕ) (visited nodes : List ℕ) → unvisited (n ∷ visited) nodes ≤ unvisited visited nodes
unfolding unvisited is_listed
unvisited-le n visited [] = omega arith
unvisited-le n visited (m ∷ nodes) = ground (arith, unvisited-le n visited nodes)

pub unvisited-lt :
    (n : ℕ) (visited nodes : List ℕ)
    → is_listed n visited ≡ false
    → is_listed n nodes ≡ true
    → unvisited (n ∷ visited) nodes < unvisited visited nodes
unfolding unvisited is_listed
unvisited-lt n visited [] out there = cc
unvisited-lt n visited (m ∷ nodes) out there = elim (Bool-cases (m == n)) [
  | inl e ↦
      let same : m ≡ n = (==_iff m n).0 e in
      let le = unvisited-le n visited nodes in
      let back : n == m ≡ true = ground arith in
      let unlisted : is_listed m visited ≡ false = rw same out in
      rw (back, unlisted) (omega (arith, le))
  | inr e ↦
      let lt = unvisited-lt n visited nodes out (rw e at there) in
      let back : n == m ≡ false = ground arith in rw back (ground (arith, lt))
]

-- Lists of nodes.
pub listed-at :
    (m n : ℕ) (l : List ℕ) → is_listed n (m ∷ l) ≡ true → (m ≡ n) ⊎ (is_listed n l ≡ true)
unfolding is_listed
listed-at m n l h = elim (Bool-cases (m == n)) [
  | inl e ↦ inl ((==_iff m n).0 e)
  | inr e ↦ inr (rw e at h)
]

pub listed-cons : (m n : ℕ) (l : List ℕ) → is_listed n l ≡ true → is_listed n (m ∷ l) ≡ true
unfolding is_listed
listed-cons m n l h = elim (Bool-cases (m == n)) [ inl e ↦ rw e | inr e ↦ rw e h ]

pub listed_self : (n : ℕ) (l : List ℕ) → is_listed n (n ∷ l) ≡ true
unfolding is_listed
listed_self n l = let e : n == n ≡ true = ground arith in rw e

pub unvisited-length : (nodes : List ℕ) → unvisited [] nodes ≤ length nodes
unfolding unvisited is_listed
unvisited-length [] = omega arith
unvisited-length (n ∷ nodes) = let le = unvisited-length nodes in omega (arith, le)

-- Whether a slice has the value, and whether one of them has it.
unfoldable pub has_value : ℕ → List (ℕ × ℤ) → Bool
has_value v [] = false
has_value v ((u, d) ∷ vals) = u == v || has_value v vals

unfoldable pub any_value : ℕ → List Slice → Bool
unfolding has_value
any_value v [] = false
any_value v (s ∷ slices) = has_value v s.dep_vals || any_value v slices

pub has_value-append :
    (v : ℕ) (xs ys : List (ℕ × ℤ)) → has_value v (xs ++ ys) ≡ (has_value v xs || has_value v ys)
unfolding has_value
has_value-append v [] ys = refl
has_value-append v ((u, d) ∷ xs) ys = ground (arith, has_value-append v xs ys)

pub any_value-append :
    (v : ℕ) (xs ys : List Slice) → any_value v (xs ++ ys) ≡ (any_value v xs || any_value v ys)
unfolding any_value
any_value-append v [] ys = refl
any_value-append v (s ∷ xs) ys = ground (arith, any_value-append v xs ys)

-- A value that is added to a slice that is there.
pub any_value-change :
    (v u id : ℕ) (slices : List Slice)
    → any_value v slices ≡ true
    → any_value v (change_slice id (add_value u) slices) ≡ true
unfolding any_value change_slice
any_value-change v u id [] h = cc
any_value-change v u id (s ∷ slices) h =
    ground (arith, has_value-append v s.dep_vals ((u, pos 0) ∷ []), any_value-change v u id slices)

has_value-new : (u : ℕ) (vals : List (ℕ × ℤ)) → has_value u (vals ++ (u, pos 0) ∷ []) ≡ true
unfolding has_value
has_value-new u [] = let e : u == u ≡ true = ground arith in rw e
has_value-new u ((w, d) ∷ vals) = ground (arith, has_value-new u vals)

pub any_value-new :
    (u id : ℕ) (slices : List Slice)
    → has_slice id slices ≡ true
    → any_value u (change_slice id (add_value u) slices) ≡ true
unfolding any_value change_slice has_slice get_slice
any_value-new u id [] h = cc
any_value-new u id (s ∷ slices) h = elim (Bool-cases (s.id == id)) [
  | inl e ↦ rw e (ground (arith, has_value-new u s.dep_vals))
  | inr e ↦ rw e (ground (arith, any_value-new u id slices (rw e at h)))
]

-- A change of a slice keeps the identifiers.
pub has_slice-change :
    (id j u : ℕ) (slices : List Slice)
    → has_slice j (change_slice id (add_value u) slices) ≡ has_slice j slices
unfolding has_slice get_slice change_slice
has_slice-change id j u [] = refl
has_slice-change id j u (s ∷ slices) = elim (Bool-cases (s.id == id)) [
  | inl e ↦ rw e (elim (Bool-cases (s.id == j)) [ inl f ↦ rw f | inr f ↦ rw f ])
  | inr e ↦ rw e (elim (Bool-cases (s.id == j)) [
    | inl f ↦ rw f
    | inr f ↦ rw f (has_slice-change id j u slices)
  ])
]

pub has_slice-append :
    (j : ℕ) (slices : List Slice) (s : Slice)
    → has_slice j (add_slice s slices) ≡ (has_slice j slices || s.id == j)
unfolding has_slice get_slice
has_slice-append j [] s = elim (Bool-cases (s.id == j)) [ inl e ↦ rw e | inr e ↦ rw e ]
has_slice-append j (t ∷ slices) s = elim (Bool-cases (t.id == j)) [
  | inl e ↦ rw e
  | inr e ↦ rw e (has_slice-append j slices s)
]

-- The slice begins with the root, and its values satisfy a predicate.
pub record IsSlice (Q : ℕ → Type 0) (root : ℕ) (s : Slice) : Type 0 where
  pub root_is : s.root ≡ root
  pub rest : List (ℕ × ℤ)
  pub starts : s.dep_vals ≡ (root, pos 0) ∷ rest
  pub values : All (λ p. Q p.0) s.dep_vals

pub add_value-IsSlice :
    (Q : ℕ → Type 0) (root u : ℕ) (s : Slice)
    → Q u
    → IsSlice Q root s
    → IsSlice Q root (add_value u s)
add_value-IsSlice Q root u s q is = record {
  root_is = is.root_is;
  rest = is.rest ++ (u, pos 0) ∷ [];
  starts = ap (λ l. l ++ (u, pos 0) ∷ []) is.starts;
  values = All-append (λ p. Q p.0) s.dep_vals ((u, pos 0) ∷ []) is.values (q, tt);
}

copy_values-IsSlice :
    (Q : ℕ → Type 0) (root r : ℕ) (vals : List (ℕ × ℤ)) (s : Slice)
    → All (λ p. Q p.0) vals
    → IsSlice Q root s
    → IsSlice Q root (copy_values r vals s)
unfolding copy_values
copy_values-IsSlice Q root r [] s a is = is
copy_values-IsSlice Q root r ((u, d) ∷ vals) s (q, a) is = elim (Bool-cases (u == r)) [
  | inl e ↦ rw e (copy_values-IsSlice Q root r vals s a is)
  | inr e ↦
      rw e (copy_values-IsSlice Q root r vals (add_value u s) a (add_value-IsSlice Q root u s q is))
]

pub fork-IsSlice :
    (Q : ℕ → Type 0) (root : ℕ) (s : Slice) → Q root → IsSlice Q root s → IsSlice Q root (fork s)
unfolding fork
fork-IsSlice Q root s q is = copy_values-IsSlice Q root s.root s.dep_vals _ is.values (record {
  root_is = is.root_is;
  rest = [];
  starts = ap (λ r. (r, pos 0) ∷ []) is.root_is;
  values = (rw is.root_is q, tt);
})

pub change-IsSlice :
    (Q : ℕ → Type 0) (root u id : ℕ) (slices : List Slice)
    → Q u
    → All (IsSlice Q root) slices
    → All (IsSlice Q root) (change_slice id (add_value u) slices)
unfolding change_slice
change-IsSlice Q root u id [] q a = tt
change-IsSlice Q root u id (s ∷ slices) q (is, a) = elim (Bool-cases (s.id == id)) [
  | inl e ↦ rw e (add_value-IsSlice Q root u s q is, a)
  | inr e ↦ rw e (is, change-IsSlice Q root u id slices q a)
]

pub get_slice-IsSlice :
    (Q : ℕ → Type 0) (root id : ℕ) (slices : List Slice) (s : Slice)
    → All (IsSlice Q root) slices
    → get_slice id slices ≡ some s
    → IsSlice Q root s
unfolding get_slice
get_slice-IsSlice Q root id [] s a h = cc
get_slice-IsSlice Q root id (t ∷ slices) s (is, a) h = elim (Bool-cases (t.id == id)) [
  | inl e ↦ subst (IsSlice Q root) (some_inj (rw e at h)) is
  | inr e ↦ get_slice-IsSlice Q root id slices s a (rw e at h)
]
