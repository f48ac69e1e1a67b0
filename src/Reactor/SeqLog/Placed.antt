-- ===== src/Reactor/SeqLog/Placed.antt =====
-- The buckets and the keys of the table (reactor/lib/checkpoint.c).
use arthas.Prelude.{
  some_inj, ℕ, ◌%◌, ◌<◌, ◌≡◌, ◌≢◌, refl, ℤ, pos, inl, inr, none, some, List, [], ◌∷◌, map, All,
  arith, eq_ℤ_iff, get_elem?, set, length, get_elem?-set_self, get_elem?-set_ne, Option-cases,
  subst, sym, ◌∙◌,
}
use native.Mathlib.Decide.{ℕ_discrete}
use arthas.Reactor.Types.{SingleData, Row, SeqLog}
use arthas.Reactor.SeqLog.{find, change, insert_row, insert, lookup_modify}
use arthas.Reactor.SeqLog.Table.{
  IsSized, home, bucket-defined, insert-eq, lookup_modify-eq, home-lt, at_address,
}

abbrev pub seqs : Row → List ℤ
seqs = map (λ n. n.sequence_number)

abbrev pub Unique : List ℤ → Type 0
Unique [] = Unit
Unique (k ∷ ks) = All (λ j. j ≢ k) ks × Unique ks

-- The key belongs into the bucket `i` of `n`.
abbrev pub HomeAt : ℕ → ℕ → ℤ → Type 0
HomeAt n i k = (a : ℕ) × (k ≡ pos a) × (a % n ≡ i)

abbrev pub RowPlaced : ℕ → ℕ → Row → Type 0
RowPlaced n i row = All (HomeAt n i) (seqs row) × Unique (seqs row)

pub record IsPlaced (s : SeqLog) : Type 0 where
  pub row : (i : ℕ) (r : Row) → i < s.size → get_elem? s.list i ≡ some r → RowPlaced s.size i r

pub seqs-change :
    (k : ℤ) (f : SingleData → SingleData) (row : Row) → seqs (change k f row) ≡ seqs row
unfolding change
seqs-change k f [] = refl
seqs-change k f (n ∷ row) = ground (arith, seqs-change k f row)

-- A key that the walk does not find stands nowhere in the chain.
pub find-none : (k : ℤ) (row : Row) → find k row ≡ none → All (λ j. j ≢ k) (seqs row)
unfolding find
find-none k [] h = tt
find-none k (n ∷ row) h = let (differ, rest) = split in (differ, find-none k row rest)
  where
    split : (n.sequence_number ≢ k) × (find k row ≡ none)
    split = (
      λ same. ground (arith, eq_ℤ_iff n.sequence_number k),
      ground (arith, eq_ℤ_iff n.sequence_number k),
    )

module _ (n i a : ℕ) (home : a % n ≡ i) where
  insert_row-Placed :
      (d : SingleData) (row : Row) → RowPlaced n i row → RowPlaced n i (insert_row (pos a) d row)
  unfolding insert_row
  insert_row-Placed d row placed = elim (Option-cases (find (pos a) row)) [
    | inl e ↦ rw (e, insert_row) (((a, refl, home), placed.0), (find-none (pos a) row e, placed.1))
    | inr (old, e) ↦ rw (e, insert_row) (rw (seqs-change (pos a) (λ _. d) row) placed)
  ]

-- Another chain in a bucket.
set-IsPlaced :
    (s : SeqLog) (i : ℕ) (new : Row)
    → IsPlaced s
    → i < length s.list
    → RowPlaced s.size i new
    → IsPlaced (record s { list = set s.list i new })
set-IsPlaced s i new placed lt fits = record {
  row = λ j r small e. elim (ℕ_discrete i j) [
    | yes same ↦
        let new_r : new ≡ r = some_inj (
          sym (get_elem?-set_self s.list i new lt)
          ∙ subst (λ t. get_elem? (set s.list i new) t ≡ some r) (sym same) e) in
        subst (λ t. RowPlaced s.size t r) same (subst (RowPlaced s.size i) new_r fits)
    | no differ ↦ placed.row j r small (rw (get_elem?-set_ne s.list i j new differ) at e)
  ];
}

module _ (s : SeqLog) (sized : IsSized s) (placed : IsPlaced s) where
  -- The home row of a key.
  home_row :
      (k : ℕ) → (r : Row) × (get_elem? s.list (home s k) ≡ some r) × RowPlaced s.size (home s k) r
  home_row k =
      let (r, e) = bucket-defined s sized k in
      (r, e, placed.row (home s k) r (omega (arith, sized.not_empty)) e)

  -- On a table in shape (`IsSized`), if every node stands in the bucket of its key and no key
  -- occurs twice, the same holds after `insert` of a key that is not negative.
  pub insert-IsPlaced :
      (k : ℕ) (d : SingleData) {s' : SeqLog} → insert s (pos k) d ≡ some s' → IsPlaced s'
  insert-IsPlaced k d e =
      let (r, at_home, fits) = home_row k in
      subst IsPlaced (some_inj (sym (insert-eq s sized k d r at_home) ∙ e)) (
        set-IsPlaced s (home s k) (insert_row (pos k) d r) placed (home-lt s sized k)
          (insert_row-Placed s.size (home s k) k refl d r fits))

  pub lookup_modify-IsPlaced :
      (k addr : ℕ) {s' : SeqLog} → lookup_modify s (pos k) addr ≡ some s' → IsPlaced s'
  lookup_modify-IsPlaced k addr e =
      let (r, at_home, fits) = home_row k in
      subst IsPlaced (some_inj (sym (lookup_modify-eq s sized k addr r at_home) ∙ e)) (
        set-IsPlaced s (home s k) (change (pos k) (at_address s sized addr) r) placed
          (home-lt s sized k) (rw seqs-change fits))
