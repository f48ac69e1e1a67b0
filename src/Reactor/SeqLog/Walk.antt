-- ===== src/Reactor/SeqLog/Walk.antt =====
-- A walk over all rows of a table, against a lookup (reactor/lib/checkpoint.c).
use arthas.Prelude.{
  ℕ, zero, suc, ◌+◌, ◌%◌, ◌≤◌, ◌<◌, ◌≡◌, ◌≢◌, refl, ℤ, pos, none, some, List, [], ◌∷◌, ◌++◌, take,
  All, All-append, arith, eq_ℤ_iff, to_int-pos, get_elem?, length, ◌>>=◌, ap, subst, ◌∙◌,
}
use mathlib.Core.List.{map-append}
use arthas.Reactor.Types.{Row, SeqLog}
use arthas.Reactor.SeqLog.{find, read_slots, rows, concat, nodes}
use arthas.Reactor.SeqLog.Table.{IsSized, home, view, view-home}
use arthas.Reactor.SeqLog.Placed.{seqs, Unique, HomeAt, RowPlaced, IsPlaced}

read_slots-take {ℓ} :
    {A : Type ℓ} (n : ℕ) (l : List A) → n ≤ length l → read_slots n l ≡ some (take n l)
unfolding read_slots
read_slots-take zero l h = refl
read_slots-take (suc n) [] h = absurd (omega arith)
read_slots-take (suc n) (x ∷ l) h = rw (read_slots-take n l (omega arith))

-- The rows from the bucket `i` on.
abbrev RowsPlaced : ℕ → ℕ → List Row → Type 0
RowsPlaced n i [] = Unit
RowsPlaced n i (r ∷ rs) = RowPlaced n i r × RowsPlaced n (suc i) rs

find-append :
    (k : ℤ) (xs ys : Row)
    → find k (xs ++ ys) ≡ elim (find k xs) [ none ↦ find k ys | some d ↦ some d ]
unfolding find
find-append k [] ys = refl
find-append k (x ∷ xs) ys = ground (arith, find-append k xs ys)

find-absent : (k : ℤ) (row : Row) → All (λ j. j ≢ k) (seqs row) → find k row ≡ none
unfolding find
find-absent k [] a = refl
find-absent k (n ∷ row) a = ground (arith, find-absent k row, eq_ℤ_iff n.sequence_number k)

elsewhere : (n i k : ℕ) (ks : List ℤ) → All (HomeAt n i) ks → k % n ≢ i → All (λ j. j ≢ pos k) ks
elsewhere n i k [] a h = tt
elsewhere n i k (j ∷ js) ((b, e, at_home), rest) h =
    ((λ same. h (rw (← at_home) (ap (λ t. t % n) (other same)))), elsewhere n i k js rest h)
  where
    other : j ≡ pos k → k ≡ b
    other same = ground arith

-- No later row has a key of an earlier bucket.
absent-later :
    (n i k : ℕ) (rs : List Row)
    → RowsPlaced n i rs
    → k % n < i
    → All (λ j. j ≢ pos k) (seqs (concat rs))
unfolding concat
absent-later n i k [] p h = tt
absent-later n i k (r ∷ rs) p h = rw map-append (
    All-append (λ j. j ≢ pos k) (seqs r) (seqs (concat rs))
      (elsewhere n i k (seqs r) p.0.0 (omega arith))
      (absent-later n (suc i) k rs p.1 (omega arith)))

find-concat :
    (n i k : ℕ) (rs : List Row) (j : ℕ)
    → RowsPlaced n i rs
    → k % n ≡ i + j
    → find (pos k) (concat rs) ≡ (get_elem? rs j >>= find (pos k))
unfolding concat
find-concat n i k [] j p h = find-absent (pos k) [] tt
find-concat n i k (r ∷ rs) zero p h = ground (
  arith,
  find-append (pos k) r (concat rs),
  find-absent (pos k) (concat rs) (absent-later n (suc i) k rs p.1 (omega arith)),
)
find-concat n i k (r ∷ rs) (suc j) p h =
    rw (find-append, find-absent (pos k) r (elsewhere n i k (seqs r) p.0.0 (omega arith)))
      (find-concat n (suc i) k rs j p.1 (omega arith))

Unique-append :
    (n i : ℕ) (xs ys : List ℤ)
    → Unique xs
    → Unique ys
    → All (HomeAt n i) xs
    → ((k : ℕ) → k % n ≡ i → All (λ j. j ≢ pos k) ys)
    → Unique (xs ++ ys)
Unique-append n i [] ys ux uy homes out = uy
Unique-append n i (x ∷ xs) ys ux uy ((k, e, at_home), homes) out = (
  All-append (λ j. j ≢ x) xs ys ux.0 (rw e (out k at_home)),
  Unique-append n i xs ys ux.1 uy homes out,
)

Unique-concat : (n i : ℕ) (rs : List Row) → RowsPlaced n i rs → Unique (seqs (concat rs))
unfolding concat
Unique-concat n i [] p = tt
Unique-concat n i (r ∷ rs) p = rw map-append (
    Unique-append n i (seqs r) (seqs (concat rs)) p.0.1 (Unique-concat n (suc i) rs p.1) p.0.0
      (λ k e. absent-later n (suc i) k rs p.1 (omega arith)))

HomeAt-concat :
    (n i : ℕ) (rs : List Row)
    → RowsPlaced n i rs
    → All (λ k. (a : ℕ) × (k ≡ pos a)) (seqs (concat rs))
unfolding concat
HomeAt-concat n i [] p = tt
HomeAt-concat n i (r ∷ rs) p = rw map-append (
    All-append (λ k. (a : ℕ) × (k ≡ pos a)) (seqs r) (seqs (concat rs)) (go (seqs r) p.0.0)
      (HomeAt-concat n (suc i) rs p.1))
  where
    go : (ks : List ℤ) → All (HomeAt n i) ks → All (λ k. (a : ℕ) × (k ≡ pos a)) ks
    go [] a = tt
    go (k ∷ ks) ((a, e, at_home), rest) = ((a, e), go ks rest)

RowsPlaced-take :
    (n i : ℕ) (l : List Row) (m : ℕ)
    → ((j : ℕ) (r : Row) → j < m → get_elem? l j ≡ some r → RowPlaced n (i + j) r)
    → RowsPlaced n i (take m l)
RowsPlaced-take n i l zero h = tt
RowsPlaced-take n i [] (suc m) h = tt
RowsPlaced-take n i (r ∷ l) (suc m) h = (
  subst (λ t. RowPlaced n t r) (omega arith) (h 0 r (omega arith) refl),
  RowsPlaced-take n (suc i) l m
      (λ j q lt e. subst (λ t. RowPlaced n t q) (omega arith) (h (suc j) q (omega arith) e)),
)

get_elem?-take {ℓ} :
    {A : Type ℓ} (l : List A) (m i : ℕ) → i < m → get_elem? (take m l) i ≡ get_elem? l i
get_elem?-take l zero i h = elim h [ ]
get_elem?-take [] (suc m) i h = refl
get_elem?-take (x ∷ l) (suc m) zero h = refl
get_elem?-take (x ∷ l) (suc m) (suc i) h = get_elem?-take l m i (omega arith)

-- The nodes of the walk carry distinct sequence numbers, none negative, and are found by lookups.
pub record IsWalk (s : SeqLog) (ns : Row) : Type 0 where
  pub unique : Unique (seqs ns)
  pub counted : All (λ k. (a : ℕ) × (k ≡ pos a)) (seqs ns)
  pub found : (k : ℕ) → find (pos k) ns ≡ view s k

pub nodes-IsWalk :
    (s : SeqLog) → IsSized s → IsPlaced s → (ns : Row) × (nodes s ≡ some ns) × IsWalk s ns
unfolding nodes rows
nodes-IsWalk s sized placed =
    let rs = take s.size s.list in
    let fits : RowsPlaced s.size 0 rs =
      RowsPlaced-take s.size 0 s.list s.size
        (λ j r lt e. subst (λ t. RowPlaced s.size t r) (omega arith) (placed.row j r lt e)) in
    (
      concat rs,
      rw (to_int-pos s.size sized.fits_int) (rw (read_slots-take s.size s.list sized.slots)),
      record {
        unique = Unique-concat s.size 0 rs fits;
        counted = HomeAt-concat s.size 0 rs fits;
        found = λ k.
            find-concat s.size 0 k rs (home s k) fits (omega arith)
            ∙ rw (
              get_elem?-take s.list s.size (home s k) (omega (arith, sized.not_empty)),
              view-home s sized k,
            );
      },
    )
