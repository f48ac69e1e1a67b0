-- ===== src/Reactor/Collect/Trace.antt =====
-- What `react` (reactor/lib/core.cpp) collects for an instruction.
use arthas.Prelude.{
  ℕ, ◌≡◌, ◌≢◌, refl, ℤ, pos, Bool, true, false, not, ◌&&◌, ◌||◌, ◌==◌, Option, none, some, List, [],
  ◌∷◌, ◌++◌, All, arith, ◌∙◌, sym, ap, Bool-cases, inl, inr, All-append, eq_ℤ_iff,
}
use mathlib.Core.List.{append_assoc, append-nil}
use arthas.Reactor.Types.{SingleData, SeqLog}
use arthas.Reactor.SeqLog.Table.{IsSized, view}
use arthas.Reactor.SeqLog.Placed.{IsPlaced, Unique}
use arthas.Reactor.SeqLog.Scans.{mem}
use arthas.Reactor.Addresses.{Multimap}
use arthas.Reactor.Addresses.Index.{IsKey, IsIndex}
use arthas.Reactor.Collect.{TraceItem, address_seq_nums, Collection, collect_instruction}
use arthas.Reactor.Collect.Members.{mem-append, not-mem}
use arthas.Reactor.Collect.Numbers.{
  has, IsCollected, address_seq_nums-IsIndex, collect_address-Collects,
}

-- An item of the trace belongs to the instruction and has the address.
abbrev pub traced : ℕ → List TraceItem → ℕ → Bool
traced dep_inst [] addr = false
traced dep_inst (t ∷ ts) addr = (t.instr == dep_inst && addr == t.addr) || traced dep_inst ts addr

mem_self : (a : ℕ) (ks : List ℤ) → mem (pos a) (pos a ∷ ks) ≡ true
mem_self a ks = ground (arith, eq_ℤ_iff (pos a) (pos a))

-- Two lists without a common number.
Unique-both :
    (xs ys : List ℤ)
    → All IsKey xs
    → Unique xs
    → Unique ys
    → ((k : ℕ) → mem (pos k) xs ≡ true → mem (pos k) ys ≡ false)
    → Unique (xs ++ ys)
Unique-both [] ys keys ux uy apart = uy
Unique-both (x ∷ xs) ys ((a, same), keys) ux uy apart = (
  All-append (λ j. j ≢ x) xs ys ux.0 (rw same (not-mem a ys (apart a (rw same (mem_self a xs))))),
  Unique-both xs ys keys ux.1 uy (λ k e. apart k (ground (arith, e))),
)

-- One collection after another.
IsCollected-both :
    (xs ys : List ℤ) (c c1 c2 : Collection)
    → IsCollected xs c c1
    → IsCollected ys c1 c2
    → IsCollected (xs ++ ys) c c2
IsCollected-both xs ys c c1 c2 p q = record {
  sized = q.sized;
  many = q.many ∙ ap (λ t. t ++ ys) p.many ∙ append_assoc c.many_address_seq xs ys;
  slice = q.slice ∙ ap (λ t. t ++ ys) p.slice ∙ append_assoc c.slice_seq_numbers xs ys;
  unique =
      Unique-both xs ys p.numbered p.unique q.unique
        (λ k e. ground (arith, p.known k, q.fresh k, e));
  numbered = All-append IsKey xs ys p.numbered q.numbered;
  fresh = λ k e. ground (arith, e, mem-append (pos k) xs ys, p.fresh k, p.known k, q.fresh k);
  known = λ k. ground (arith, mem-append (pos k) xs ys, p.known k, q.known k);
}

-- The version under a key has an address that passes the test.
abbrev pub at_address_of : SeqLog → ℕ → (ℕ → Bool) → Bool
at_address_of s k test = elim (view s k) [ none ↦ false | some d ↦ test d.address ]

at_address-or :
    (o : Option SingleData) (p q : ℕ → Bool)
    → elim o [ none ↦ false | some d ↦ p d.address || q d.address ] ≡ (
        elim o [ none ↦ false | some d ↦ p d.address ]
        || elim o [ none ↦ false | some d ↦ q d.address ])
at_address-or none p q = refl
at_address-or (some d) p q = refl

at_address-same :
    (o : Option SingleData) (p q : ℕ → Bool)
    → ((a : ℕ) → p a ≡ q a)
    → elim o [ none ↦ false | some d ↦ p d.address ]
      ≡ elim o [ none ↦ false | some d ↦ q d.address ]
at_address-same none p q e = refl
at_address-same (some d) p q e = e d.address

module _ (empty_data : SingleData) (s : SeqLog) (m : Multimap)
    (index : IsIndex (λ d. d.address) m s) (dep_inst : ℕ) where
  pub collect_instruction-Collects :
      (ts : List TraceItem) (c : Collection)
      → IsSized c.r_log
      → (new : List ℤ) × (c' : Collection) × (collect_instruction empty_data m dep_inst ts c
          ≡ some c')
        × IsCollected new c c'
        × ((k : ℕ)
            → mem (pos k) new ≡ (not (has c.r_log k) && at_address_of s k (traced dep_inst ts)))
  unfolding collect_instruction
  collect_instruction-Collects [] c sized = (
    [],
    c,
    refl,
    record {
      sized = sized;
      many = sym (append-nil c.many_address_seq);
      slice = sym (append-nil c.slice_seq_numbers);
      unique = tt;
      numbered = tt;
      fresh = λ k e. cc;
      known = λ k. ground arith;
    },
    λ k. none_traced (has c.r_log k) (view s k),
  )
    where
      none_traced :
          (b : Bool) (o : Option SingleData)
          → false ≡ (not b && elim o [ none ↦ false | some d ↦ false ])
      none_traced b none = ground arith
      none_traced b (some d) = ground arith
  collect_instruction-Collects (t ∷ ts) c sized = elim (Bool-cases (t.instr == dep_inst)) [
    | inl ours ↦
        let (new1, c1, ran1, r1, member1) =
          collect_address-Collects empty_data s m t.addr c index sized in
        let (new2, c2, ran2, r2, member2) = collect_instruction-Collects ts c1 r1.sized in
        (
          new1 ++ new2,
          c2,
          rw ours (rw ran1 ran2),
          IsCollected-both new1 new2 c c1 c2 r1 r2,
          λ k. ground (
            arith,
            mem-append (pos k) new1 new2,
            member1 k,
            member2 k,
            r1.known k,
            at_address-or (view s k) (λ a. a == t.addr) (traced dep_inst ts),
            at_address-same (view s k) (traced dep_inst (t ∷ ts))
                (λ a. (a == t.addr) || traced dep_inst ts a) (λ a. rw ours),
          ),
        )
    | inr other ↦
        let (new, c', ran, r, member) = collect_instruction-Collects ts c sized in
        (
          new,
          c',
          rw other ran,
          r,
          λ k.
              member k
              ∙ ap (λ b. not (has c.r_log k) && b)
                  (at_address-same (view s k) (traced dep_inst ts) (traced dep_inst (t ∷ ts))
                    (λ a. rw other)),
        )
  ]

-- On a table in shape (`IsSized`), where every node stands in the bucket of its key and no key
-- occurs twice, and with a table of collected numbers in shape, the multimap by address is made and
-- the collection for an instruction and its items of the trace ends. It appends to both lists of
-- numbers, each once, exactly the keys of the versions at an address of these items that were not
-- collected before, and notes them as collected.
pub collect_instruction-IsCollected :
    (empty_data : SingleData) (s : SeqLog) (dep_inst : ℕ) (ts : List TraceItem) (c : Collection)
    → IsSized s
    → IsPlaced s
    → IsSized c.r_log
    → (m : Multimap) × (address_seq_nums s [] ≡ some m)
      × (new : List ℤ) × (c' : Collection) × (collect_instruction empty_data m dep_inst ts c
          ≡ some c')
      × IsCollected new c c'
      × ((k : ℕ)
          → mem (pos k) new ≡ (not (has c.r_log k) && at_address_of s k (traced dep_inst ts)))
collect_instruction-IsCollected empty_data s dep_inst ts c sized placed sized_r =
    let (m, made, index) = address_seq_nums-IsIndex s sized placed in
    let (new, c', ran, r, member) =
      collect_instruction-Collects empty_data s m index dep_inst ts c sized_r in
    (m, made, new, c', ran, r, member)
