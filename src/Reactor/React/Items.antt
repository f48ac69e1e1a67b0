-- ===== src/Reactor/React/Items.antt =====
-- The loops of `react` over the instructions of the slices (reactor/lib/core.cpp).
use arthas.Prelude.{
  ℕ, ◌+◌, ◌*◌, ◌^◌, ◌≤◌, ◌<◌, ◌≡◌, refl, ℤ, pos, Bool, true, false, not, ◌&&◌, ltb, leb, eq_ℤ_iff,
  arith, Option, none, some, List, [], ◌∷◌, ◌++◌, All, All-append, length, length-append, ◌∙◌, ap,
  sym, subst, Bool-cases, inl, inr,
}
use arthas.Reactor.Types.{SingleData, SeqLog}
use arthas.Reactor.SeqLog.Table.{IsSized, view}
use arthas.Reactor.SeqLog.Scans.{mem}
use arthas.Reactor.Decision.{IsSeq}
use arthas.Reactor.Platform.{Platform, returned}
use arthas.Reactor.Binary.{Setup}
use arthas.Reactor.Binary.Attempt.{IsCured}
use arthas.Reactor.Addresses.{Multimap}
use arthas.Reactor.Addresses.Index.{IsKey, IsIndex}
use arthas.Reactor.Collect.{TraceItem, Collection, collect_instruction}
use arthas.Reactor.Collect.Numbers.{has, IsCollected, is_some}
use arthas.Reactor.Collect.Trace.{traced, at_address_of}
use arthas.Reactor.React.{
  Progress, batch_reexecution, slice_reversion, batch_reversion, next_item, react_item,
}
use arthas.Reactor.React.Batch.{IsReady, search_batch-IsSearched}

-- The keys of a table are sequence numbers.
abbrev pub HasSeqs : SeqLog → Type 0
HasSeqs s = (k : ℕ) → has s k ≡ true → k < 2 ^ 31

pub at_address-has :
    (s : SeqLog) (k : ℕ) (test : ℕ → Bool) → at_address_of s k test ≡ true → has s k ≡ true
at_address-has s k test h = go (view s k) h
  where
    go :
        (o : Option SingleData)
        → elim o [ none ↦ false | some d ↦ test d.address ] ≡ true
        → is_some o ≡ true
    go none h = cc
    go (some d) h = refl

-- Collected numbers are numbers of the table.
pub keys-IsSeq :
    (new : List ℤ) → All IsKey new → ((k : ℕ) → mem (pos k) new ≡ true → k < 2 ^ 31) → All IsSeq new
keys-IsSeq [] keys small = tt
keys-IsSeq (x ∷ new) ((a, e), keys) small = (
  (a, e, small a (ground (arith, (eq_ℤ_iff x (pos a)).1 e))),
  keys-IsSeq new keys (λ k m. small k (ground (arith, m))),
)

module _ (P : Platform) (setup : Setup) (empty_data : SingleData) where
  open P use {World}

  -- The state of the loops between two instructions.
  pub record IsGoing (p : Progress World) : Type 0 where
    pub ready : IsReady P setup empty_data p.machine
    pub sized : IsSized p.collection.r_log
    pub seqs : All IsSeq p.collection.many_address_seq
    pub waiting : length p.collection.many_address_seq ≤ 1
    pub fresh : p.collection.slice_seq_numbers ≡ []
    pub clear : p.many_address_clear ≡ false

  -- No number is reverted but by the binary search.
  slice_reversion-skipped :
      (p : Progress World)
      → (p.many_address_clear ≡ false
          → length p.collection.slice_seq_numbers ≤ length p.collection.many_address_seq)
      → slice_reversion P setup empty_data p ≡ returned (false, p)
  unfolding slice_reversion
  slice_reversion-skipped p h = elim (Bool-cases p.many_address_clear) [
    | inl gone ↦
        let guard : (leb 1 (length p.collection.slice_seq_numbers)
              && ltb (length p.collection.many_address_seq) batch_reexecution
              && not p.many_address_clear)
            ≡ false =
          rw gone (ground arith) in
        rw guard
    | inr there ↦
        let few = h there in
        let guard : (leb 1 (length p.collection.slice_seq_numbers)
              && ltb (length p.collection.many_address_seq) batch_reexecution
              && not p.many_address_clear)
            ≡ false =
          ground arith in
        rw guard
  ]

  -- What the loops did between `p` and `p'`: at most 4 runs for each of `n` instructions.
  pub record IsReacted (n : ℕ) (p : Progress World) (done : Bool) (p' : Progress World)
      : Type 0 where
    pub runs_ge : p.machine.total_reexecutions ≤ p'.machine.total_reexecutions
    pub runs_le : p'.machine.total_reexecutions ≤ p.machine.total_reexecutions + 4 * n
    pub success : done ≡ true → (p'.machine.binary_success ≡ pos 1) × IsCured P setup p'.machine
    pub going : done ≡ false → IsGoing p'
    pub kept :
        done ≡ false → (k : ℕ) → has p.collection.r_log k ≡ true → has p'.collection.r_log k ≡ true

  -- When an instruction is collected, from a progress between two instructions (`IsGoing`), and at
  -- most one number waits afterwards, the body of the loop goes on to the next instruction and
  -- leaves the memory, the outside and all counters alone: nothing is reverted, and the program is
  -- not run.
  pub react_item-waits :
      (fuel : ℕ) (m : Multimap) (trace : List TraceItem) (i : ℕ) (p : Progress World) (new : List ℤ)
      (c : Collection)
      → IsGoing p
      → collect_instruction empty_data m i trace p.collection ≡ some c
      → IsCollected new p.collection c
      → length c.many_address_seq ≤ 1
      → react_item P setup empty_data fuel m trace i p
        ≡ returned (false, next_item P setup empty_data (record p { collection = c }))
  unfolding react_item batch_reversion
  react_item-waits fuel m trace i p new c g ran collected short =
      let slice : c.slice_seq_numbers ≡ new = collected.slice ∙ ap (λ l. l ++ new) g.fresh in
      let counts : length c.many_address_seq ≡ length p.collection.many_address_seq + length new =
        ap length collected.many ∙ length-append p.collection.many_address_seq new in
      let few : ltb batch_reexecution (length c.many_address_seq) ≡ false = ground arith in
      rw (ran, few)
        (rw (
          slice_reversion-skipped (record p { collection = c })
            (λ e. rw slice (omega (arith, counts)))))

  module _ (fuel : ℕ) (enough : 3 ≤ fuel) (s : SeqLog) (small : HasSeqs s) (m : Multimap)
      (index : IsIndex (λ d. d.address) m s) (trace : List TraceItem) where
    -- The versions at the addresses of the instruction are collected.
    abbrev pub Covers : ℕ → Progress World → Type 0
    Covers i p =
        (k : ℕ) → at_address_of s k (traced i trace) ≡ true → has p.collection.r_log k ≡ true

    -- The body behind the collection of `new`.
    pub react_item-behind :
        (i : ℕ) (p : Progress World) (new : List ℤ) (c : Collection)
        → IsGoing p
        → collect_instruction empty_data m i trace p.collection ≡ some c
        → IsCollected new p.collection c
        → All IsSeq new
        → (done : Bool) × (p' : Progress World) × (react_item P setup empty_data fuel m trace i p
            ≡ returned (done, p'))
          × IsReacted 1 p done p'
          × (done ≡ false → p'.collection.r_log ≡ c.r_log)
    unfolding react_item batch_reversion
    react_item-behind i p new c g ran collected seqs =
        let p1 : Progress World = record p { collection = c } in
        let many : All IsSeq c.many_address_seq =
          subst (All IsSeq) (sym collected.many)
            (All-append IsSeq p.collection.many_address_seq new g.seqs seqs) in
        let known : (k : ℕ) → has p.collection.r_log k ≡ true → has c.r_log k ≡ true =
          λ k h. collected.known k ∙ rw h in
        elim (Bool-cases (ltb batch_reexecution (length c.many_address_seq))) [
          | inl enough_there ↦
              let (done, p2, searched, r) =
                search_batch-IsSearched P setup empty_data fuel p1 enough (ground arith) many
                  g.ready in
              elim (Bool-cases done) [
                | inl won ↦ (
                  true,
                  p2,
                  rw (ran, enough_there, searched, won),
                  record {
                    runs_ge = r.runs_ge;
                    runs_le = let z = r.runs_le in omega (arith, z);
                    success = λ _. r.success won;
                    going = λ e. cc;
                    kept = λ e. cc;
                  },
                  λ e. cc,
                )
                | inr lost ↦
                    let (emptied, cleared) = r.emptied lost in
                    let skipped =
                      slice_reversion-skipped p2
                        (λ e. let z : true ≡ false = sym cleared ∙ e in cc) in
                    let same : p2.collection.r_log ≡ c.r_log =
                      ap (λ (c : Collection). c.r_log) emptied in
                    let none_left : p2.collection.many_address_seq ≡ [] =
                      ap (λ (c : Collection). c.many_address_seq) emptied in
                    (
                      false,
                      next_item P setup empty_data p2,
                      rw (ran, enough_there, searched, lost) (rw skipped),
                      record {
                        runs_ge = r.runs_ge;
                        runs_le = let z = r.runs_le in omega (arith, z);
                        success = λ e. cc;
                        going = λ _. record {
                          ready = r.ready;
                          sized = rw same collected.sized;
                          seqs = rw none_left tt;
                          waiting = rw none_left (omega arith);
                          fresh = refl;
                          clear = refl;
                        };
                        kept = λ _ k h. rw same (known k h);
                      },
                      λ _. same,
                    )
              ]
          | inr few_there ↦
              let short : length c.many_address_seq ≤ 1 = ground arith in
              (
                false,
                next_item P setup empty_data p1,
                react_item-waits fuel m trace i p new c g ran collected short,
                record {
                  runs_ge = omega arith;
                  runs_le = omega arith;
                  success = λ e. cc;
                  going = λ _. record {
                    ready = g.ready;
                    sized = collected.sized;
                    seqs = many;
                    waiting = short;
                    fresh = refl;
                    clear = refl;
                  };
                  kept = λ _ k h. known k h;
                },
                λ _. refl,
              )
        ]
