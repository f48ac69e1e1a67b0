-- ===== src/Examples/Texts.antt =====
-- Texts with separators, and a map of two identifiers.
use arthas.Prelude.{◌≡◌, refl, true, length, some, List, [], ◌∷◌, arith}
use arthas.Reactor.Platform.{returned}
use arthas.Analyzer.Strings.{String, find_string, split_list}
use arthas.Analyzer.Strings.Join.{join, split_list-join}
use arthas.Analyzer.Strings.Total.{split_list-Total}
use arthas.Analyzer.GuidMap.{GuidMapEntry, serialize, loaded, deserialize}
use arthas.Analyzer.GuidMap.RoundTrip.{IsPrintable, deserialize-serialize}

-- "a##b" split at "##".
split_list-join_example :
    split_list 9 (join (35 ∷ 35 ∷ []) (97 ∷ []) ((98 ∷ []) ∷ [])) (35 ∷ 35 ∷ [])
    ≡ returned (1, (97 ∷ []) ∷ (98 ∷ []) ∷ [])
unfolding find_string
split_list-join_example =
    split_list-join 35 (35 ∷ []) (97 ∷ []) (98 ∷ []) [] 9 (omega arith)
      (((λ e. omega (arith, e)), tt), refl)

-- "a##b##" split at "##".
split_list-Total_example :
    (p : String) × (ps : List String) × (split_list 8
        (97 ∷ 35 ∷ 35 ∷ 98 ∷ 35 ∷ 35 ∷ [])
        (35 ∷ 35 ∷ [])
      ≡ returned (length ps, p ∷ ps))
    × (join (35 ∷ 35 ∷ []) p ps ≡ 97 ∷ 35 ∷ 35 ∷ 98 ∷ 35 ∷ 35 ∷ [])
split_list-Total_example =
    split_list-Total 35 (35 ∷ []) 97 (35 ∷ 35 ∷ 98 ∷ 35 ∷ 35 ∷ []) 8 (omega arith)

-- The instruction of the first entry is "x #4".
abbrev pub entry_7 : GuidMapEntry
entry_7 = record {
  guid = 7;
  source_path = 47 ∷ [];
  source_file = 97 ∷ [];
  function = 102 ∷ [];
  line = 120;
  instruction = 120 ∷ 32 ∷ 35 ∷ 52 ∷ [];
}

abbrev pub entry_12 : GuidMapEntry
entry_12 = record entry_7 { guid = 12; line = 3 }

entry_7-IsPrintable : IsPrintable entry_7
unfolding find_string
entry_7-IsPrintable = record {
  small_guid = omega arith;
  small_line = omega arith;
  path = (((λ e. omega (arith, e)), (λ e. omega (arith, e))), tt);
  file = (((λ e. omega (arith, e)), (λ e. omega (arith, e))), tt);
  function = (((λ e. omega (arith, e)), (λ e. omega (arith, e))), tt);
  instruction = refl;
  one_line = (
    (λ e. omega (arith, e)),
    ((λ e. omega (arith, e)), ((λ e. omega (arith, e)), ((λ e. omega (arith, e)), tt))),
  );
}

entry_12-IsPrintable : IsPrintable entry_12
entry_12-IsPrintable = record {
  small_guid = omega arith;
  small_line = omega arith;
  path = entry_7-IsPrintable.path;
  file = entry_7-IsPrintable.file;
  function = entry_7-IsPrintable.function;
  instruction = entry_7-IsPrintable.instruction;
  one_line = entry_7-IsPrintable.one_line;
}

deserialize-serialize_example :
    deserialize (some (serialize (entry_7 ∷ entry_12 ∷ []))) [] true
    ≡ returned (loaded true (entry_7 ∷ entry_12 ∷ []))
deserialize-serialize_example =
    deserialize-serialize true (entry_7 ∷ entry_12 ∷ [])
      (entry_7-IsPrintable, (entry_12-IsPrintable, tt)) ((omega arith, tt), (tt, tt))
