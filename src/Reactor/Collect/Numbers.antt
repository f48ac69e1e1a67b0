-- ===== src/Reactor/Collect/Numbers.antt =====
-- What `react` (reactor/lib/core.cpp) collects for an address.
use arthas.Prelude.{
  ℕ, ◌≡◌, refl, ℤ, pos, negsuc, Bool, true, false, not, ◌&&◌, ◌||◌, Option, none, some, List, [],
  ◌∷◌, ◌++◌, All, arith, ◌==◌, ==_iff, eq_ℤ_iff, if◌then◌else◌, ◌∙◌, ap, sym, Bool-cases, inl, inr,
}
use mathlib.Core.List.{reverse, append_assoc, append-nil}
use arthas.Prelude.Sort.{qsort, All-qsort, All-reverse}
use arthas.Reactor.Types.{SingleData, SeqLog}
use arthas.Reactor.SeqLog.{rev_lookup}
use arthas.Reactor.SeqLog.Table.{IsSized, view, insert-Writes, rev_lookup-view}
use arthas.Reactor.SeqLog.Placed.{IsPlaced, Unique}
use arthas.Reactor.SeqLog.Walk.{nodes-IsWalk}
use arthas.Reactor.SeqLog.Scans.{mem}
use arthas.Reactor.Addresses.{Multimap, equal_range, insert_by}
use arthas.Reactor.Addresses.Index.{IsKey, range-IsKey, IsIndex, insert_by-IsIndex}
use arthas.Reactor.Collect.Members.{mem-qsort, mem-reverse, not-mem}
use arthas.Reactor.Collect.{
  greater, address_seq_nums, Collection, collect_number, collect_numbers, collect_address,
}

-- The table has the key.
abbrev pub is_some : Option SingleData → Bool
is_some none = false
is_some (some d) = true

abbrev pub has : SeqLog → ℕ → Bool
has s k = is_some (view s k)

-- The numbers `new` were collected on top of `c`, which gave `c'`.
pub record IsCollected (new : List ℤ) (c c' : Collection) : Type 0 where
  pub sized : IsSized c'.r_log
  pub many : c'.many_address_seq ≡ c.many_address_seq ++ new
  pub slice : c'.slice_seq_numbers ≡ c.slice_seq_numbers ++ new
  pub unique : Unique new
  pub numbered : All IsKey new
  pub fresh : (k : ℕ) → mem (pos k) new ≡ true → has c.r_log k ≡ false
  pub known : (k : ℕ) → has c'.r_log k ≡ (has c.r_log k || mem (pos k) new)

module _ (empty_data : SingleData) where
  rev_lookup-has :
      (s : SeqLog) (sized : IsSized s) (k : ℕ)
      → (has s k ≡ true → rev_lookup s (pos k) ≡ some (pos 1))
        × (has s k ≡ false → rev_lookup s (pos k) ≡ some (negsuc 0))
  rev_lookup-has s sized k = (
    λ e. rev_lookup-view s sized k ∙ ap some (go_true (view s k) e),
    λ e. rev_lookup-view s sized k ∙ ap some (go_false (view s k) e),
  )
    where
      go_true :
          (o : Option SingleData)
          → is_some o ≡ true
          → elim o [ none ↦ negsuc 0 | some d ↦ pos 1 ] ≡ pos 1
      go_true none e = cc
      go_true (some d) e = refl

      go_false :
          (o : Option SingleData)
          → is_some o ≡ false
          → elim o [ none ↦ negsuc 0 | some d ↦ pos 1 ] ≡ negsuc 0
      go_false none e = refl
      go_false (some d) e = cc

  has-insert :
      (s s' : SeqLog) (a : ℕ)
      → ((j : ℕ) → view s' j ≡ (if a == j then some empty_data else view s j))
      → (j : ℕ) → has s' j ≡ ((a == j) || has s j)
  has-insert s s' a reads j = ap is_some (reads j) ∙ go (a == j)
    where
      go : (b : Bool) → is_some (if b then some empty_data else view s j) ≡ (b || has s j)
      go true = refl
      go false = refl

  -- The collection with one more number.
  abbrev grown : ℕ → SeqLog → Collection → Collection
  grown a s' c = record {
    many_address_seq = c.many_address_seq ++ pos a ∷ [];
    slice_seq_numbers = c.slice_seq_numbers ++ pos a ∷ [];
    r_log = s';
  }

  collect_number-old :
      (a : ℕ) (c : Collection)
      → IsSized c.r_log
      → has c.r_log a ≡ true
      → collect_number empty_data (pos a) c ≡ some c
  unfolding collect_number
  collect_number-old a c sized e = rw ((rev_lookup-has c.r_log sized a).0 e)

  collect_number-new :
      (a : ℕ) (c : Collection)
      → IsSized c.r_log
      → has c.r_log a ≡ false
      → (s' : SeqLog) × (collect_number empty_data (pos a) c ≡ some (grown a s' c))
        × IsSized s'
        × ((j : ℕ) → has s' j ≡ ((a == j) || has c.r_log j))
  unfolding collect_number
  collect_number-new a c sized e =
      let (s', inserted, sized', _, reads) = insert-Writes c.r_log sized a empty_data in
      (
        s',
        rw ((rev_lookup-has c.r_log sized a).1 e) (rw inserted),
        sized',
        has-insert c.r_log s' a reads,
      )

  IsCollected-old :
      (a : ℕ) (h : Bool) (k : ℕ) (ks : List ℤ)
      → (k ≡ a → h ≡ true)
      → (not h && mem (pos k) ks) ≡ (not h && mem (pos k) (pos a ∷ ks))
  IsCollected-old a h k ks e = ground (arith, eq_ℤ_iff (pos a) (pos k))

  collect_numbers-IsCollected :
      (ks : List ℤ) (c : Collection)
      → All IsKey ks
      → IsSized c.r_log
      → (new : List ℤ) × (c' : Collection) × (collect_numbers empty_data ks c ≡ some c')
        × IsCollected new c c'
        × ((k : ℕ) → mem (pos k) new ≡ (not (has c.r_log k) && mem (pos k) ks))
  unfolding collect_numbers
  collect_numbers-IsCollected [] c keys sized = (
    [],
    c,
    refl,
    record {
      sized = sized;
      many = sym (append-nil c.many_address_seq);
      slice = sym (append-nil c.slice_seq_numbers);
      unique = tt;
      numbered = tt;
      fresh = λ k e. cc;
      known = λ k. ground arith;
    },
    λ k. ground arith,
  )
  collect_numbers-IsCollected (k ∷ ks) c ((a, same), keys) sized =
      elim (Bool-cases (has c.r_log a)) [
        | inl old ↦
            let (new, c', ran, r, member) = collect_numbers-IsCollected ks c keys sized in
            (
              new,
              c',
              rw same (rw (collect_number-old a c sized old) ran),
              r,
              λ j.
                  member j
                  ∙ rw same
                      (IsCollected-old a (has c.r_log j) j ks (λ e. ap (has c.r_log) e ∙ old)),
            )
        | inr missing ↦
            let (s', stepped, sized', has') = collect_number-new a c sized missing in
            let at_a : (j : ℕ) → a == j ≡ true → has c.r_log j ≡ false =
              λ j e. ap (has c.r_log) (sym ((==_iff a j).0 e)) ∙ missing in
            let c1 = grown a s' c in
            let (new, c', ran, r, member) = collect_numbers-IsCollected ks c1 keys sized' in
            (
              pos a ∷ new,
              c',
              rw same (rw stepped ran),
              record {
                sized = r.sized;
                many = r.many ∙ append_assoc c.many_address_seq (pos a ∷ []) new;
                slice = r.slice ∙ append_assoc c.slice_seq_numbers (pos a ∷ []) new;
                unique = (not-mem a new (member a ∙ ground (arith, has' a, ==_iff a a)), r.unique);
                numbered = ((a, refl), r.numbered);
                fresh = λ j e. elim (Bool-cases (a == j)) [
                  | inl here ↦ at_a j here
                  | inr elsewhere ↦
                      ground (arith, r.fresh j, has' j, eq_ℤ_iff (pos a) (pos j), ==_iff a j)
                ];
                known =
                    λ j. r.known j ∙ ground (arith, has' j, eq_ℤ_iff (pos a) (pos j), ==_iff a j);
              },
              λ j. elim (Bool-cases (a == j)) [
                | inl here ↦ ground (arith, at_a j here, eq_ℤ_iff (pos a) (pos j), ==_iff a j)
                | inr elsewhere ↦
                    ground (arith, member j, has' j, eq_ℤ_iff (pos a) (pos j), ==_iff a j)
              ],
            )
      ]

pub address_seq_nums-IsIndex :
    (s : SeqLog)
    → IsSized s
    → IsPlaced s
    → (m : Multimap) × (address_seq_nums s [] ≡ some m) × IsIndex (λ d. d.address) m s
unfolding address_seq_nums
address_seq_nums-IsIndex s sized placed =
    let (ns, walked, w) = nodes-IsWalk s sized placed in
    (insert_by (λ d. d.address) ns [], rw walked, insert_by-IsIndex (λ d. d.address) s ns w)

pub collect_address-Collects :
    (empty_data : SingleData) (s : SeqLog) (m : Multimap) (addr : ℕ) (c : Collection)
    → IsIndex (λ d. d.address) m s
    → IsSized c.r_log
    → (new : List ℤ) × (c' : Collection) × (collect_address empty_data m addr c ≡ some c')
      × IsCollected new c c'
      × ((k : ℕ)
          → mem (pos k) new ≡ (
              not (has c.r_log k) && elim (view s k) [ none ↦ false | some d ↦ d.address == addr ]))
unfolding collect_address
collect_address-Collects empty_data s m addr c index sized_r =
    let range = equal_range addr m in
    let sorted = qsort greater range in
    let keys =
      All-reverse IsKey sorted
        (All-qsort greater IsKey range (range-IsKey addr m index.numbered)) in
    let (new, c', ran, r, member) =
      collect_numbers-IsCollected empty_data (reverse sorted) c keys sized_r in
    (
      new,
      c',
      ran,
      r,
      λ k.
          member k
          ∙ ap (λ b. not (has c.r_log k) && b)
              (mem-reverse (pos k) sorted ∙ mem-qsort (pos k) range ∙ index.listed k addr),
    )
