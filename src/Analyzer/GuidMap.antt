-- ===== src/Analyzer/GuidMap.antt =====
-- The identifiers of the variables in persistent memory, and their file
-- (analyzer/lib/Instrument/PmemVarGuidMap.cpp and its header).
pub mod RoundTrip
use arthas.Prelude.{
  ℕ, zero, suc, Bool, true, false, ◌==◌, ltb, Option, none, some, List, [], ◌∷◌, ◌++◌, length,
  if◌then◌else◌,
}
use arthas.Reactor.Platform.{Run, returned, bind}
use arthas.Analyzer.Strings.{String, split_list}
use arthas.Analyzer.Numbers.{show, str2fmt}

pub record GuidMapEntry : Type 0 where
  pub guid : ℕ
  pub source_path : String
  pub source_file : String
  pub function : String
  pub line : ℕ
  pub instruction : String

-- The entries by rising identifier.
abbrev pub GuidMap : Type 0
GuidMap = List GuidMapEntry

-- `emplace`: an identifier that is there keeps its entry.
unfoldable pub add : GuidMapEntry → GuidMap → GuidMap
add e [] = e ∷ []
add e (x ∷ m) =
    let rest = add e m in
    if e.guid == x.guid then x ∷ m else (if ltb e.guid x.guid then e ∷ x ∷ m else x ∷ rest)

-- `FieldSeparator`, and `"\n"`.
abbrev pub field_separator : String
field_separator = 35 ∷ 35 ∷ []

abbrev pub newline : ℕ
newline = 10

unfoldable pub serialize_entry : GuidMapEntry → String
unfolding show
serialize_entry e =
    show e.guid
    ++ (field_separator
        ++ (e.source_path
            ++ (field_separator
                ++ (e.source_file
                    ++ (field_separator
                        ++ (e.function
                            ++ (field_separator
                                ++ (show e.line ++ (field_separator ++ e.instruction)))))))))

-- What is written to the file.
unfoldable pub serialize : GuidMap → String
serialize [] = []
serialize (e ∷ m) = serialize_entry e ++ (newline ∷ serialize m)

-- The lines that `getline` reads.
unfoldable pub get_lines : String → List String
get_lines [] = []
get_lines (c ∷ s) =
    let rest = get_lines s in
    if c == newline then [] ∷ rest else elim rest [ [] ↦ (c ∷ []) ∷ [] | l ∷ ls ↦ (c ∷ l) ∷ ls ]

-- `deserialize` returns with the map read so far, or `str2fmt` throws.
pub data Loaded : Type 0 where
  loaded : Bool → GuidMap → Loaded
  thrown : Loaded

-- The entry of a line with the right number of fields.
unfoldable pub read_entry : List String → Option (Option GuidMapEntry)
unfolding str2fmt
read_entry (guid ∷ path ∷ file ∷ function ∷ line ∷ instruction ∷ []) =
    some (elim (str2fmt 64 guid) [
      | none ↦ none
      | some g ↦ elim (str2fmt 32 line) [
        | none ↦ none
        | some l ↦ some (record {
          guid = g;
          source_path = path;
          source_file = file;
          function = function;
          line = l;
          instruction = instruction;
        })
      ]
    ])
read_entry _ = none

-- The rest of the loop behind a line; `again` goes on with the next one.
unfoldable pub after_line :
    Bool → (GuidMap → Run Loaded) → GuidMap → Option (Option GuidMapEntry) → Run Loaded
after_line ignore_bad_line again result none =
    if ignore_bad_line then again result else returned (loaded false result)
after_line ignore_bad_line again result (some none) = returned thrown
after_line ignore_bad_line again result (some (some entry)) = again (add entry result)

unfoldable pub read_lines : Bool → List String → GuidMap → Run Loaded
read_lines ignore_bad_line [] result = returned (loaded true result)
read_lines ignore_bad_line (l ∷ ls) result =
    bind (split_list (suc (length l)) l field_separator) λ (n, parts).
      after_line ignore_bad_line (read_lines ignore_bad_line ls) result (read_entry parts)

-- `file` is what the file holds, none if it cannot be opened.
unfoldable pub deserialize : Option String → GuidMap → Bool → Run Loaded
deserialize none result ignore_bad_line = returned (loaded false result)
deserialize (some text) result ignore_bad_line = read_lines ignore_bad_line (get_lines text) result
