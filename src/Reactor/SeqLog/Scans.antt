-- ===== src/Reactor/SeqLog/Scans.antt =====
-- The functions that walk over the whole table (reactor/lib/checkpoint.c).
use arthas.Prelude.{
  ℕ, ◌+◌, ◌≡◌, ◌≢◌, refl, ℤ, pos, ltb_ℤ, Bool, false, ◌||◌, inl, inr, Option, none, some, List, [],
  ◌∷◌, All, arith, ◌==◌, eq_ℤ, eq_ℤ_iff, length, if◌then◌else◌, ◌∙◌, ap, Bool-cases, subst,
}
use arthas.Reactor.Types.{SingleData, Row, SeqLog}
use arthas.Reactor.SeqLog.{find, addressed, address_lookup, count_above, count_higher}
use arthas.Reactor.SeqLog.Table.{IsSized, view}
use arthas.Reactor.SeqLog.Placed.{IsPlaced, seqs, Unique}
use arthas.Reactor.SeqLog.Walk.{IsWalk, nodes-IsWalk}

-- A key is among the sequence numbers.
abbrev pub mem : ℤ → List ℤ → Bool
mem k [] = false
mem k (j ∷ js) = eq_ℤ j k || mem k js

-- The sequence numbers of the nodes that pass a test.
unfoldable pub select : (ℤ → SingleData → Bool) → Row → List ℤ
select p [] = []
select p (n ∷ row) =
    let rest = select p row in
    if p n.sequence_number n.ordered_data then n.sequence_number ∷ rest else rest

mem-absent :
    (p : ℤ → SingleData → Bool) (k : ℤ) (row : Row)
    → All (λ j. j ≢ k) (seqs row)
    → mem k (select p row) ≡ false
unfolding select
mem-absent p k [] a = refl
mem-absent p k (n ∷ row) a = ground (arith, mem-absent p k row, eq_ℤ_iff n.sequence_number k)

-- A key is selected exactly when its entry passes the test.
pub mem-select :
    (p : ℤ → SingleData → Bool) (k : ℤ) (row : Row)
    → Unique (seqs row)
    → mem k (select p row) ≡ elim (find k row) [ none ↦ false | some d ↦ p k d ]
unfolding select find
mem-select p k [] u = refl
mem-select p k (n ∷ row) u = elim (Bool-cases (eq_ℤ n.sequence_number k)) [
  | inl e ↦
      let same = (eq_ℤ_iff n.sequence_number k).0 e in
      let absent = mem-absent p k row (subst (λ t. All (λ j. j ≢ t) (seqs row)) same u.0) in
      ground (arith, eq_ℤ_iff n.sequence_number k)
  | inr e ↦ ground (arith, mem-select p k row)
]

All-select :
    (P : ℤ → Type 0) (p : ℤ → SingleData → Bool) (row : Row)
    → All P (seqs row)
    → All P (select p row)
unfolding select
All-select P p [] a = tt
All-select P p (n ∷ row) a =
    let rest = All-select P p row a.1 in
    elim (Bool-cases (p n.sequence_number n.ordered_data)) [
      | inl e ↦ rw (e, select) (a.0, rest)
      | inr e ↦ rw (e, select) rest
    ]

pub Unique-select :
    (p : ℤ → SingleData → Bool) (row : Row) → Unique (seqs row) → Unique (select p row)
unfolding select
Unique-select p [] u = tt
Unique-select p (n ∷ row) u =
    let rest = Unique-select p row u.1 in
    elim (Bool-cases (p n.sequence_number n.ordered_data)) [
      | inl e ↦ rw (e, select) (All-select (λ j. j ≢ n.sequence_number) p row u.0, rest)
      | inr e ↦ rw (e, select) rest
    ]

addressed-select : (a : ℕ) (row : Row) → addressed a row ≡ select (λ k d. a == d.address) row
unfolding addressed select
addressed-select a [] = refl
addressed-select a (n ∷ row) = rw (addressed-select a row)

count_above-select :
    (b : ℤ) (n : ℕ) (row : Row) → count_above b n row ≡ n + length (select (λ k d. ltb_ℤ b k) row)
unfolding count_above select
count_above-select b n [] = omega arith
count_above-select b n (t ∷ row) =
    ground (arith, count_above-select b n row, count_above-select b (n + 1) row)

-- The list holds each key of the table whose entry passes the test, once, and nothing else.
pub record Enumerates (s : SeqLog) (p : ℤ → SingleData → Bool) (ks : List ℤ) : Type 0 where
  pub unique : Unique ks
  pub listed : (k : ℕ) → mem (pos k) ks ≡ elim (view s k) [ none ↦ false | some d ↦ p (pos k) d ]
  pub counted : All (λ k. (a : ℕ) × (k ≡ pos a)) ks

pub select-Enumerates :
    (s : SeqLog) (p : ℤ → SingleData → Bool) (ns : Row) → IsWalk s ns → Enumerates s p (select p ns)
select-Enumerates s p ns w = record {
  unique = Unique-select p ns w.unique;
  listed = λ k.
      mem-select p (pos k) ns w.unique
      ∙ ap (λ (o : Option SingleData). elim o [ none ↦ false | some d ↦ p (pos k) d ]) (w.found k);
  counted = All-select (λ k. (a : ℕ) × (k ≡ pos a)) p ns w.counted;
}

module _ (s : SeqLog) (sized : IsSized s) (placed : IsPlaced s) where
  -- On a table in shape (`IsSized`), where every node stands in the bucket of its key and no key
  -- occurs twice, `address_lookup` lists the keys of exactly the versions with the given address,
  -- each once, and counts them.
  pub address_lookup-Enumerates :
      (a : ℕ)
      → (ks : List ℤ) × (address_lookup s a ≡ some (ks, length ks))
        × Enumerates s (λ k d. a == d.address) ks
  unfolding address_lookup
  address_lookup-Enumerates a =
      let (ns, walked, w) = nodes-IsWalk s sized placed in
      (
        select (λ k d. a == d.address) ns,
        rw (walked, addressed-select),
        select-Enumerates s (λ k d. a == d.address) ns w,
      )

  -- On a table in shape (`IsSized`), where every node stands in the bucket of its key and no key
  -- occurs twice, `count_higher` returns the number of the keys above the given number.
  pub count_higher-Enumerates :
      (b : ℤ)
      → (ks : List ℤ) × (count_higher s b ≡ some (length ks)) × Enumerates s (λ k d. ltb_ℤ b k) ks
  unfolding count_higher
  count_higher-Enumerates b =
      let (ns, walked, w) = nodes-IsWalk s sized placed in
      (
        select (λ k d. ltb_ℤ b k) ns,
        rw (walked, count_above-select) (ap some (omega arith)),
        select-Enumerates s (λ k d. ltb_ℤ b k) ns w,
      )
