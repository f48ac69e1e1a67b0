-- ===== src/Reactor/Addresses/Multimap.antt =====
-- `offset_seq_creation` and `sort_creation` (reactor/lib/core.cpp), compared with the loops of
-- `sort_by_sequence_number` (reactor/lib/rollback.c).
use arthas.Prelude.{
  ◌≡◌, refl, ◌∙◌, ap, sym, ℕ, ℤ, pos, Bool, false, Option, none, some, List, [], ◌∷◌, All, arith,
  ◌==◌, ==_iff, eq_ℤ_iff, if◌then◌else◌, Bool-cases, inl, inr,
}
use mathlib.Core.Option
use arthas.Reactor.Types.{SingleData, SeqLog}
use arthas.Reactor.SeqLog.Table.{IsSized, view, lookup_modify-Writes}
use arthas.Reactor.SeqLog.Placed.{IsPlaced, lookup_modify-IsPlaced}
use arthas.Reactor.SeqLog.Walk.{nodes-IsWalk}
use arthas.Reactor.SeqLog.Scans.{mem}
use arthas.Reactor.Addresses.{
  AddrOffset, place, Multimap, equal_range, insert_by, offset_seq_creation, modify_range,
  sort_creation, sort_by_sequence_number,
}
use arthas.Reactor.Addresses.Direct.{placed_by, IsSorted, sort_by_sequence_number-IsSorted}
use arthas.Reactor.Addresses.Index.{IsKey, at_key, range-IsKey, IsIndex, insert_by-IsIndex}

abbrev moved : ℕ → SingleData → SingleData
moved addr d = record d { sorted_pmem_address = addr }

offset_seq_creation-IsIndex :
    (s : SeqLog)
    → IsSized s
    → IsPlaced s
    → (m : Multimap) × (offset_seq_creation s [] ≡ some m) × IsIndex (λ d. d.offset) m s
unfolding offset_seq_creation
offset_seq_creation-IsIndex s sized placed =
    let (ns, walked, w) = nodes-IsWalk s sized placed in
    (insert_by (λ d. d.offset) ns [], rw walked, insert_by-IsIndex (λ d. d.offset) s ns w)

-- Placing at one address twice is placing once.
at_address-twice :
    (addr : ℕ) (o : Option SingleData)
    → Option.map (moved addr) (Option.map (moved addr) o) ≡ Option.map (moved addr) o
at_address-twice addr none = refl
at_address-twice addr (some d) = refl

-- The table `s'` is `s` with the listed versions at the address.
record IsModified (ks : List ℤ) (addr : ℕ) (s s' : SeqLog) : Type 0 where
  pub sized : IsSized s'
  pub placed : IsPlaced s'
  pub reads :
      (j : ℕ)
      → view s' j ≡ (if mem (pos j) ks then Option.map (moved addr) (view s j) else view s j)

modify_range-IsModified :
    (ks : List ℤ) (addr : ℕ) (s : SeqLog)
    → IsSized s
    → IsPlaced s
    → All IsKey ks
    → (s' : SeqLog) × (modify_range ks addr s ≡ some s') × IsModified ks addr s s'
unfolding modify_range
modify_range-IsModified [] addr s sized placed keys =
    (s, refl, record { sized = sized; placed = placed; reads = λ j. refl })
modify_range-IsModified (k ∷ ks) addr s sized placed ((a, same), keys) =
    let (s1, stepped, sized1, _, reads1) = lookup_modify-Writes s sized a addr in
    let placed1 = lookup_modify-IsPlaced s sized placed a addr stepped in
    let (s2, ran, r) = modify_range-IsModified ks addr s1 sized1 placed1 keys in
    (
      s2,
      rw same (rw stepped ran),
      record {
        sized = r.sized;
        placed = r.placed;
        reads = λ j. ground (
          arith,
          r.reads j,
          reads1 j,
          at_address-twice addr (view s j),
          eq_ℤ_iff k (pos j),
          ==_iff a j,
          same,
        );
      },
    )

moved-place :
    (a : AddrOffset) (j : ℕ) (o : Option SingleData) (b : Bool)
    → b ≡ elim o [ none ↦ false | some d ↦ at_key (λ d. d.offset) a.offset (pos j) d ]
    → (if b then Option.map (moved a.pmem_address) o else o) ≡ Option.map (place a) o
moved-place a j none b e = ground arith
moved-place a j (some d) b e = elim (Bool-cases (d.offset == a.offset)) [
  | inl here ↦ rw (e, here)
  | inr elsewhere ↦ rw (e, elsewhere)
]

offset-place :
    (a : AddrOffset) (j k : ℕ) (o : Option SingleData)
    → elim (Option.map (place a) o) [ none ↦ false | some d ↦ at_key (λ d. d.offset) k (pos j) d ]
      ≡ elim o [ none ↦ false | some d ↦ at_key (λ d. d.offset) k (pos j) d ]
offset-place a j k none = refl
offset-place a j k (some d) = ground arith

map-place :
    (a : AddrOffset) (addrs : List AddrOffset) (o : Option SingleData)
    → Option.map (placed_by addrs) (Option.map (place a) o) ≡ Option.map (placed_by (a ∷ addrs)) o
unfolding placed_by
map-place a addrs none = refl
map-place a addrs (some d) = refl

map-placed_by-nil : (o : Option SingleData) → o ≡ Option.map (placed_by []) o
unfolding placed_by
map-placed_by-nil none = refl
map-placed_by-nil (some d) = refl

sort_creation-IsSorted :
    (addrs : List AddrOffset) (m : Multimap) (s : SeqLog)
    → IsSized s
    → IsPlaced s
    → IsIndex (λ d. d.offset) m s
    → (s' : SeqLog) × (sort_creation addrs m s ≡ some s') × IsSorted addrs s s'
unfolding sort_creation
sort_creation-IsSorted [] m s sized placed index =
    (s, refl, record { sized = sized; placed = placed; reads = λ k. map-placed_by-nil (view s k) })
sort_creation-IsSorted (a ∷ addrs) m s sized placed index =
    let (s1, stepped, r1) =
      modify_range-IsModified (equal_range a.offset m) a.pmem_address s sized placed
        (range-IsKey a.offset m index.numbered) in
    let reads1 : (k : ℕ) → view s1 k ≡ Option.map (place a) (view s k) =
      λ k. r1.reads k ∙ moved-place a k (view s k) _ (index.listed k a.offset) in
    let index1 : IsIndex (λ d. d.offset) m s1 = record {
      numbered = index.numbered;
      listed = λ j k. index.listed j k ∙ sym (rw (reads1 j) (offset-place a j k (view s j)));
    } in
    let (s2, ran, r2) = sort_creation-IsSorted addrs m s1 r1.sized r1.placed index1 in
    (
      s2,
      rw stepped ran,
      record {
        sized = r2.sized;
        placed = r2.placed;
        reads = λ k.
            r2.reads k
            ∙ ap (Option.map (placed_by addrs)) (reads1 k)
            ∙ map-place a addrs (view s k);
      },
    )

-- On a table in shape (`IsSized`), where every node stands in the bucket of its key and no key
-- occurs twice, `sort_creation` with the multimap of `offset_seq_creation` ends and sets the
-- address of each version to the one that the list gives for its offset last, leaving other
-- versions alone, and the table has then the same versions as after `sort_by_sequence_number`.
pub sort_creation-sort_by_sequence_number :
    (addrs : List AddrOffset) (s : SeqLog)
    → IsSized s
    → IsPlaced s
    → (m : Multimap) × (offset_seq_creation s [] ≡ some m)
      × (s1 : SeqLog) × (sort_creation addrs m s ≡ some s1)
      × (s2 : SeqLog) × (sort_by_sequence_number addrs s ≡ some s2)
      × IsSorted addrs s s1
      × ((k : ℕ) → view s1 k ≡ view s2 k)
sort_creation-sort_by_sequence_number addrs s sized placed =
    let (m, made, index) = offset_seq_creation-IsIndex s sized placed in
    let (s1, ran1, r1) = sort_creation-IsSorted addrs m s sized placed index in
    let (s2, ran2, r2) = sort_by_sequence_number-IsSorted addrs s sized placed in
    (m, made, s1, ran1, s2, ran2, r1, λ k. r1.reads k ∙ sym (r2.reads k))
