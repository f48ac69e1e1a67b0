-- ===== src/Reactor/Addresses/Index.antt =====
-- A multimap from the offsets or the addresses of the versions to their sequence numbers.
use arthas.Prelude.{
  ◌≡◌, refl, ◌∙◌, ap, ℕ, ℤ, pos, Bool, false, ◌||◌, ◌&&◌, Option, none, some, List, [], ◌∷◌, All,
  arith, ◌==◌, eq_ℤ, ltb, Bool-cases, inl, inr,
}
use arthas.Reactor.Types.{SingleData, Row, SeqLog}
use arthas.Reactor.SeqLog.Table.{view}
use arthas.Reactor.SeqLog.Placed.{seqs}
use arthas.Reactor.SeqLog.Walk.{IsWalk}
use arthas.Reactor.SeqLog.Scans.{mem, select, mem-select}
use arthas.Reactor.Addresses.{Multimap, mm_insert, equal_range, insert_by}

abbrev pub IsKey : ℤ → Type 0
IsKey v = (a : ℕ) × (v ≡ pos a)

abbrev pub values : Multimap → List ℤ
values [] = []
values ((j, w) ∷ m) = w ∷ values m

mem-mm_insert :
    (v : ℤ) (k j : ℕ) (w : ℤ) (m : Multimap)
    → mem v (equal_range k (mm_insert j w m)) ≡ ((j == k && eq_ℤ w v) || mem v (equal_range k m))
unfolding mm_insert equal_range
mem-mm_insert v k j w [] = ground arith
mem-mm_insert v k j w ((i, x) ∷ m) = ground (arith, mem-mm_insert v k j w m)

values-mm_insert :
    (j : ℕ) (w : ℤ) (m : Multimap)
    → IsKey w
    → All IsKey (values m)
    → All IsKey (values (mm_insert j w m))
unfolding mm_insert
values-mm_insert j w [] p a = (p, tt)
values-mm_insert j w ((i, x) ∷ m) p a = elim (Bool-cases (ltb j i)) [
  | inl e ↦ rw (e, mm_insert) (p, a)
  | inr e ↦ rw (e, mm_insert) (a.0, values-mm_insert j w m p a.1)
]

abbrev pub at_key : (SingleData → ℕ) → ℕ → ℤ → SingleData → Bool
at_key key k v d = key d == k

pub range-IsKey : (k : ℕ) (m : Multimap) → All IsKey (values m) → All IsKey (equal_range k m)
unfolding equal_range
range-IsKey k [] a = tt
range-IsKey k ((j, w) ∷ m) a = elim (Bool-cases (j == k)) [
  | inl e ↦ rw (e, equal_range) (a.0, range-IsKey k m a.1)
  | inr e ↦ rw (e, equal_range) (range-IsKey k m a.1)
]

module _ (key : SingleData → ℕ) where
  mem-insert_by :
      (v : ℤ) (k : ℕ) (ns : Row) (m : Multimap)
      → mem v (equal_range k (insert_by key ns m))
        ≡ (mem v (select (at_key key k) ns) || mem v (equal_range k m))
  unfolding insert_by select
  mem-insert_by v k [] m = refl
  mem-insert_by v k (n ∷ ns) m =
      let j = key n.ordered_data in
      ground (
        arith,
        mem-insert_by v k ns (mm_insert j n.sequence_number m),
        mem-mm_insert v k j n.sequence_number m,
      )

  values-insert_by :
      (ns : Row) (m : Multimap)
      → All IsKey (seqs ns)
      → All IsKey (values m)
      → All IsKey (values (insert_by key ns m))
  unfolding insert_by
  values-insert_by [] m a b = b
  values-insert_by (n ∷ ns) m a b =
      let j = key n.ordered_data in
      values-insert_by ns (mm_insert j n.sequence_number m) a.1
        (values-mm_insert j n.sequence_number m a.0 b)

  -- The multimap lists the versions of the table by their keys.
  pub record IsIndex (m : Multimap) (s : SeqLog) : Type 0 where
    pub numbered : All IsKey (values m)
    pub listed :
        (j k : ℕ)
        → mem (pos j) (equal_range k m)
          ≡ elim (view s j) [ none ↦ false | some d ↦ at_key key k (pos j) d ]

  pub insert_by-IsIndex : (s : SeqLog) (ns : Row) → IsWalk s ns → IsIndex (insert_by key ns []) s
  unfolding equal_range
  insert_by-IsIndex s ns w = record {
    numbered = values-insert_by ns [] w.counted tt;
    listed = λ j k.
        mem-insert_by (pos j) k ns []
        ∙ or_false (mem (pos j) (select (at_key key k) ns))
        ∙ mem-select (at_key key k) (pos j) ns w.unique
        ∙ ap (λ (o : Option SingleData). elim o [ none ↦ false | some d ↦ at_key key k (pos j) d ])
            (w.found j);
  }
    where
      or_false : (a : Bool) → (a || false) ≡ a
      or_false a = ground arith
