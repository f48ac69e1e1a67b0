-- ===== src/Examples/React.antt =====
-- Two slices over two versions, on a program that fails in its first run.
use arthas.Prelude.{
  ◌||◌, if◌then◌else◌, ◌≡◌, refl, ℕ, pos, Bool, true, false, none, some, List, [], ◌∷◌, All, arith,
  inl, inr, ◌==◌, Bool-cases, ap, sym, ◌∙◌,
}
use arthas.Reactor.Platform.{returned}
use arthas.Reactor.SeqLog.{rev_lookup}
use arthas.Reactor.SeqLog.Table.{view}
use arthas.Reactor.SeqLog.Scans.{mem}
use arthas.Reactor.Addresses.{Multimap}
use arthas.Reactor.Collect.{
  address_seq_nums, Collection, collect_instruction, collect_address, collect_numbers,
  collect_number, TraceItem,
}
use arthas.Reactor.Collect.Numbers.{is_some, has, IsCollected}
use arthas.Reactor.Collect.Trace.{traced, at_address_of}
use arthas.Reactor.React.{Progress, next_item, react_item, react_slices}
use arthas.Reactor.React.Items.{HasSeqs, IsReacted, react_item-waits}
use arthas.Reactor.React.Loops.{react_slices-IsReacted}
use arthas.Examples.Data.{
  version_5, version_9, insert_9, one_version, one_version-IsSized, two_versions,
  two_versions-IsSized, two_versions-IsPlaced, view-one, view-two,
}
use arthas.Examples.Search.{second_run_works, start, setup, two_versions-IsUsable}
use arthas.Examples.Collect.{trace}

-- The number 5 waits.
abbrev progress : Progress ℕ
progress = record {
  machine = start two_versions;
  collection = record {
    many_address_seq = pos 5 ∷ [];
    slice_seq_numbers = [];
    r_log = one_version;
  };
  many_address_clear = false;
  req_flag2 = pos 0;
  high_num = pos 9;
}

two_versions-HasSeqs : HasSeqs two_versions
two_versions-HasSeqs k h = elim (Bool-cases (9 == k)) [
  | inl nine ↦ ground arith
  | inr not_nine ↦ elim (Bool-cases (5 == k)) [
    | inl five ↦ ground arith
    | inr not_five ↦
        let none_there : view two_versions k ≡ none = view-two k ∙ rw (not_nine, not_five) in
        let gone : has two_versions k ≡ false = ap is_some none_there in
        let h' : false ≡ true = sym gone ∙ h in cc
  ]
]

react_slices-IsReacted_example :
    (m : Multimap) × (address_seq_nums two_versions [] ≡ some m)
    × (done : Bool) × (p' : Progress ℕ) × (react_slices second_run_works setup version_5 3 m trace
          ((1 ∷ []) ∷ (2 ∷ []) ∷ [])
          progress
        ≡ returned (done, p'))
    × IsReacted second_run_works setup version_5 2 progress done p'
    × (done ≡ false
        → All
            (λ i.
              (k : ℕ)
              → at_address_of two_versions k (traced i trace) ≡ true
              → has p'.collection.r_log k ≡ true)
            (1 ∷ 2 ∷ []))
react_slices-IsReacted_example =
    react_slices-IsReacted second_run_works setup version_5 3 two_versions trace
      ((1 ∷ []) ∷ (2 ∷ []) ∷ []) progress (omega arith) two_versions-IsSized two_versions-IsPlaced
      two_versions-HasSeqs
      (record {
        ready = record { usable = two_versions-IsUsable; fresh = λ e. cc; reset = refl };
        sized = one_version-IsSized;
        seqs = ((5, refl, omega arith), tt);
        waiting = omega arith;
        fresh = refl;
        clear = refl;
      })

-- No number waits, and the instruction 3 has an item for the version 9.
abbrev idle : Progress ℕ
idle = record progress {
  collection = record { many_address_seq = []; slice_seq_numbers = []; r_log = one_version };
}

abbrev items : List TraceItem
items = record { instr = 3; addr = 200 } ∷ []

abbrev numbers : Multimap
numbers = (100, pos 5) ∷ (200, pos 9) ∷ []

abbrev with_9 : Collection
with_9 = record {
  many_address_seq = pos 9 ∷ [];
  slice_seq_numbers = pos 9 ∷ [];
  r_log = two_versions;
}

collected_9 : collect_instruction version_9 numbers 3 items idle.collection ≡ some with_9
unfolding collect_instruction collect_address collect_numbers collect_number rev_lookup
collected_9 = rw insert_9

has_5 : (b : Bool) → is_some (if b then some version_5 else none) ≡ b
has_5 true = refl
has_5 false = refl

has_one : (k : ℕ) → has one_version k ≡ (5 == k)
has_one k = ap is_some (view-one k) ∙ has_5 (5 == k)

has_either :
    (nine five : Bool)
    → is_some (if nine then some version_9 else (if five then some version_5 else none))
      ≡ (five || (nine || false))
has_either true true = refl
has_either true false = refl
has_either false true = refl
has_either false false = refl

with_9-IsCollected : IsCollected (pos 9 ∷ []) idle.collection with_9
with_9-IsCollected = record {
  sized = two_versions-IsSized;
  many = refl;
  slice = refl;
  unique = (tt, tt);
  numbered = ((9, refl), tt);
  fresh = λ k h. has_one k ∙ ground arith;
  known = λ k.
      ap is_some (view-two k)
      ∙ has_either (9 == k) (5 == k)
      ∙ ap (λ b. b || mem (pos k) (pos 9 ∷ [])) (sym (has_one k));
}

react_item-waits_example :
    react_item second_run_works setup version_9 3 numbers items 3 idle
    ≡ returned
        (false, next_item second_run_works setup version_9 (record idle { collection = with_9 }))
react_item-waits_example =
    react_item-waits second_run_works setup version_9 3 numbers items 3 idle (pos 9 ∷ []) with_9
      (record {
        ready = record { usable = two_versions-IsUsable; fresh = λ e. cc; reset = refl };
        sized = one_version-IsSized;
        seqs = tt;
        waiting = omega arith;
        fresh = refl;
        clear = refl;
      })
      collected_9 with_9-IsCollected (omega arith)
