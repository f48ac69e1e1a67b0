-- ===== src/Analyzer/AddrTrace/Matching.antt =====
-- From addresses to instructions (`addressToInstruction`, `addressesToInstructions` of
-- analyzer/lib/Instrument/PmemAddrTrace.cpp). The matcher, which works on LLVM's representation, is
-- an argument: from a file, a line and the text of an instruction to the instruction, if there is
-- one. Reporting the failures is left out.
use arthas.Prelude.{
  ℕ, ◌≡◌, refl, Bool, true, false, ◌==◌, Option, none, some, List, [], ◌∷◌, All, map, ap, sym, ◌∙◌,
  if◌then◌else◌, Bool-cases, Option-cases, inl, inr, ◌⊎◌, ==_iff, some_inj,
}
use arthas.Analyzer.Strings.{String}
use arthas.Analyzer.GuidMap.{GuidMapEntry}
use arthas.Analyzer.AddrTrace.{PmemAddrTraceItem, PmemAddrTrace}

unfoldable pub find_key {ℓ} : {A : Type ℓ} → ℕ → List (ℕ × A) → Option A
find_key k [] = none
find_key k ((j, a) ∷ l) = let rest = find_key k l in if j == k then some a else rest

module _ (match_instr : String → ℕ → String → Option ℕ) where
  -- What the call of the matcher gives is noted, and stored in the item.
  abbrev pub note_match :
      PmemAddrTraceItem → PmemAddrTrace → Option ℕ → Bool × PmemAddrTraceItem × PmemAddrTrace
  note_match item t none =
      (false, item, record t { failed_guids = (item.guid, item.addr_str) ∷ t.failed_guids })
  note_match item t (some i) = (
    true,
    record item { instr = some i },
    record t { guid_instr_map = (item.guid, i) ∷ t.guid_instr_map },
  )

  abbrev pub match_failed :
      PmemAddrTraceItem
      → PmemAddrTrace
      → GuidMapEntry
      → Option String
      → Bool × PmemAddrTraceItem × PmemAddrTrace
  match_failed item t var (some addr_str) = (false, item, t)
  match_failed item t var none =
      note_match item t (match_instr var.source_file var.line var.instruction)

  abbrev pub match_known :
      PmemAddrTraceItem
      → PmemAddrTrace
      → GuidMapEntry
      → Option ℕ
      → Bool × PmemAddrTraceItem × PmemAddrTrace
  match_known item t var (some i) = (true, record item { instr = some i }, t)
  match_known item t var none = match_failed item t var (find_key item.guid t.failed_guids)

  abbrev pub match_var :
      PmemAddrTraceItem
      → PmemAddrTrace
      → Option GuidMapEntry
      → Bool × PmemAddrTraceItem × PmemAddrTrace
  match_var item t none = (false, item, t)
  match_var item t (some var) = match_known item t var (find_key item.guid t.guid_instr_map)

  unfoldable pub address_to_instruction :
      PmemAddrTraceItem → PmemAddrTrace → Bool × PmemAddrTraceItem × PmemAddrTrace
  address_to_instruction item t = match_var item t item.var

  -- The loop over the items; `t` carries the two tables.
  unfoldable pub match_items :
      List PmemAddrTraceItem → PmemAddrTrace → List PmemAddrTraceItem × PmemAddrTrace
  match_items [] t = ([], t)
  match_items (item ∷ items) t =
      let (found, item', t') = address_to_instruction item t in
      let (items', t'') = match_items items t' in (item' ∷ items', t'')

  unfoldable pub addresses_to_instructions : Bool → PmemAddrTrace → Bool × PmemAddrTrace
  addresses_to_instructions processed t =
      let (items, t') = match_items t.items t in
      if processed then (true, record t' { items = items }) else (false, t)

  -- The reference: the matcher is asked for every item anew.
  abbrev pub matched : Option GuidMapEntry → Option ℕ
  matched none = none
  matched (some var) = match_instr var.source_file var.line var.instruction

  abbrev pub with_instr : PmemAddrTraceItem → Option ℕ → PmemAddrTraceItem
  with_instr item none = item
  with_instr item (some i) = record item { instr = some i }

  abbrev pub asked : PmemAddrTraceItem → PmemAddrTraceItem
  asked item = with_instr item (matched item.var)

  module _ (vars : ℕ → Option GuidMapEntry) where
    -- The tables hold what the matcher answers.
    pub record IsSound (t : PmemAddrTrace) : Type 0 where
      pub known : (g i : ℕ) → find_key g t.guid_instr_map ≡ some i → matched (vars g) ≡ some i
      pub failed :
          (g : ℕ) (s : String) → find_key g t.failed_guids ≡ some s → matched (vars g) ≡ none

    abbrev pub HasVars : List PmemAddrTraceItem → Type 0
    HasVars = All (λ x. x.var ≡ vars x.guid)

    find_key-head :
        {A : Type 0} (k : ℕ) (a : A) (l : List (ℕ × A)) (g : ℕ) {b : A}
        → find_key g ((k, a) ∷ l) ≡ some b
        → ((k ≡ g) × (a ≡ b)) ⊎ (find_key g l ≡ some b)
    unfolding find_key
    find_key-head k a l g h = elim (Bool-cases (k == g)) [
      | inl e ↦ inl ((==_iff k g).0 e, some_inj (rw e at h))
      | inr e ↦ inr (rw e at h)
    ]

    IsSound-known :
        (k i : ℕ) (t : PmemAddrTrace)
        → IsSound t
        → matched (vars k) ≡ some i
        → IsSound (record t { guid_instr_map = (k, i) ∷ t.guid_instr_map })
    IsSound-known k i t sound m = record {
      known = λ g j h. elim (find_key-head k i t.guid_instr_map g h) [
        | inl (same, e) ↦ ap (λ g. matched (vars g)) (sym same) ∙ m ∙ ap some e
        | inr h' ↦ sound.known g j h'
      ];
      failed = sound.failed;
    }

    IsSound-failed :
        (k : ℕ) (s : String) (t : PmemAddrTrace)
        → IsSound t
        → matched (vars k) ≡ none
        → IsSound (record t { failed_guids = (k, s) ∷ t.failed_guids })
    IsSound-failed k s t sound m = record {
      known = sound.known;
      failed = λ g r h. elim (find_key-head k s t.failed_guids g h) [
        | inl (same, e) ↦ ap (λ g. matched (vars g)) (sym same) ∙ m
        | inr h' ↦ sound.failed g r h'
      ];
    }

    unknown_failed :
        (item : PmemAddrTraceItem) (t : PmemAddrTrace) {v : GuidMapEntry}
        → item.var ≡ some v
        → find_key item.guid t.guid_instr_map ≡ none
        → match_var item t item.var ≡ match_failed item t v (find_key item.guid t.failed_guids)
    unknown_failed item t {v} e unknown =
        ap (match_var item t) e ∙ ap (match_known item t v) unknown

    address_to_instruction-asked :
        (item : PmemAddrTraceItem) (t : PmemAddrTrace)
        → item.var ≡ vars item.guid
        → IsSound t
        → (b : Bool) × (t' : PmemAddrTrace) × (address_to_instruction item t ≡ (b, asked item, t'))
          × IsSound t'
          × (t'.pool_addrs ≡ t.pool_addrs)
    unfolding address_to_instruction
    address_to_instruction-asked item t same sound = elim (Option-cases item.var) [
      | inl e ↦ (false, t, rw e, sound, refl)
      | inr (v, e) ↦ elim (Option-cases (find_key item.guid t.guid_instr_map)) [
        | inr (i, known) ↦
            let m : matched item.var ≡ some i = ap matched same ∙ sound.known item.guid i known in
            (
              true,
              t,
              ap (match_var item t) e
                  ∙ ap (match_known item t v) known
                  ∙ ap (λ o. (true, with_instr item o, t)) (sym m),
              sound,
              refl,
            )
        | inl unknown ↦ elim (Option-cases (find_key item.guid t.failed_guids)) [
          | inr (s, failed) ↦
              let m : matched item.var ≡ none = ap matched same ∙ sound.failed item.guid s failed in
              (
                false,
                t,
                unknown_failed item t e unknown
                    ∙ ap (match_failed item t v) failed
                    ∙ ap (λ o. (false, with_instr item o, t)) (sym m),
                sound,
                refl,
              )
          | inl fresh ↦ elim (Option-cases (matched (some v))) [
            | inl lost ↦
                let m : matched item.var ≡ none = ap matched e ∙ lost in
                (
                  false,
                  record t { failed_guids = (item.guid, item.addr_str) ∷ t.failed_guids },
                  unknown_failed item t e unknown
                      ∙ ap (match_failed item t v) fresh
                      ∙ ap (note_match item t) lost
                      ∙ ap
                          (λ o. (
                            false,
                            with_instr item o,
                            record t { failed_guids = (item.guid, item.addr_str) ∷ t.failed_guids },
                          ))
                          (sym m),
                  IsSound-failed item.guid item.addr_str t sound (ap matched (sym same) ∙ m),
                  refl,
                )
            | inr (i, found) ↦
                let m : matched item.var ≡ some i = ap matched e ∙ found in
                (
                  true,
                  record t { guid_instr_map = (item.guid, i) ∷ t.guid_instr_map },
                  unknown_failed item t e unknown
                      ∙ ap (match_failed item t v) fresh
                      ∙ ap (note_match item t) found
                      ∙ ap
                          (λ o. (
                            true,
                            with_instr item o,
                            record t { guid_instr_map = (item.guid, i) ∷ t.guid_instr_map },
                          ))
                          (sym m),
                  IsSound-known item.guid i t sound (ap matched (sym same) ∙ m),
                  refl,
                )
          ]
        ]
      ]
    ]

    match_items-asked :
        (items : List PmemAddrTraceItem) (t : PmemAddrTrace)
        → HasVars items
        → IsSound t
        → (t' : PmemAddrTrace) × (match_items items t ≡ (map asked items, t'))
          × IsSound t'
          × (t'.pool_addrs ≡ t.pool_addrs)
    unfolding match_items
    match_items-asked [] t vs sound = (t, refl, sound, refl)
    match_items-asked (item ∷ items) t (same, vs) sound =
        let (b, t1, ran, sound1, pools1) = address_to_instruction-asked item t same sound in
        let (t2, rest, sound2, pools2) = match_items-asked items t1 vs sound1 in
        (t2, rw (ran, rest), sound2, pools2 ∙ pools1)

    -- With a matcher that is ready, items whose variables depend on their identifiers only, and
    -- tables that hold what the matcher answers (`IsSound`), `addressesToInstructions` returns true
    -- and leaves each item as asking the matcher anew for it would, keeps the pools, and its tables
    -- still hold what the matcher answers.
    pub addresses_to_instructions-asked :
        (t : PmemAddrTrace)
        → HasVars t.items
        → IsSound t
        → (t' : PmemAddrTrace) × (addresses_to_instructions true t ≡ (true, t'))
          × (t'.items ≡ map asked t.items)
          × (t'.pool_addrs ≡ t.pool_addrs)
          × IsSound t'
    unfolding addresses_to_instructions
    addresses_to_instructions-asked t vs sound =
        let (t', ran, sound', pools) = match_items-asked t.items t vs sound in
        (
          record t' { items = map asked t.items },
          rw ran,
          refl,
          pools,
          record { known = sound'.known; failed = sound'.failed },
        )
