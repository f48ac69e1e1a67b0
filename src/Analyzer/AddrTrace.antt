-- ===== src/Analyzer/AddrTrace.antt =====
-- The trace of the addresses that a run of the program used
-- (analyzer/lib/Instrument/PmemAddrTrace.cpp and its header), as analyzer/runtime/addr_tracker.c
-- writes it. A pointer to an item is its place in the trace; messages are left out.
pub mod Pools
pub mod Items
pub mod Lines
pub mod Matching
use arthas.Prelude.{
  ℕ, zero, suc, ◌+◌, ◌-◌, Bool, true, false, ◌&&◌, ◌||◌, ◌==◌, leb, Option, none, some, List, [],
  ◌∷◌, ◌++◌, length, if◌then◌else◌,
}
use arthas.Reactor.Platform.{Run, returned, bind}
use arthas.Analyzer.Strings.{String, find_string, split_list}
use arthas.Analyzer.Numbers.{show, str2fmt}
use arthas.Analyzer.Hex.{show_pointer, str2fmt_hex}
use arthas.Analyzer.GuidMap.{GuidMapEntry, GuidMap, newline, get_lines}

-- An instruction of the program is a number.
pub record PmemAddrTraceItem : Type 0 where
  pub addr_str : String
  pub addr : ℕ
  pub guid : ℕ
  pub pool_offset : ℕ
  pub is_pool : Bool
  pub is_mmap : Bool
  pub var : Option GuidMapEntry
  pub instr : Option ℕ

abbrev pub new_item : PmemAddrTraceItem
new_item = record {
  addr_str = [];
  addr = 0;
  guid = 0;
  pool_offset = 0;
  is_pool = false;
  is_mmap = false;
  var = none;
  instr = none;
}

pub record PmemAddrPool : Type 0 where
  pub pool_addr : ℕ
  pub addresses : List ℕ

-- `_guid_instr_map` and `_failed_guids` are lists of their pairs.
pub record PmemAddrTrace : Type 0 where
  pub items : List PmemAddrTraceItem
  pub pool_addrs : List PmemAddrPool
  pub guid_instr_map : List (ℕ × ℕ)
  pub failed_guids : List (ℕ × String)

-- "call %struct.pmemobjpool* @pmemobj_create".
abbrev pub pmem_obj_create_call : String
pmem_obj_create_call =
    99 ∷ 97 ∷ 108 ∷ 108 ∷ 32 ∷ 37 ∷ 115 ∷ 116 ∷ 114 ∷ 117 ∷ 99 ∷ 116 ∷ 46 ∷ 112 ∷ 109 ∷ 101 ∷ 109
    ∷ 111 ∷ 98 ∷ 106 ∷ 112 ∷ 111 ∷ 111 ∷ 108 ∷ 42 ∷ 32 ∷ 64 ∷ 112 ∷ 109 ∷ 101 ∷ 109 ∷ 111 ∷ 98 ∷ 106
    ∷ 95 ∷ 99 ∷ 114 ∷ 101 ∷ 97 ∷ 116 ∷ 101 ∷ []

-- "call i8* @pmem_map_file".
abbrev pub pmem_create_call : String
pmem_create_call =
    99 ∷ 97 ∷ 108 ∷ 108 ∷ 32 ∷ 105 ∷ 56 ∷ 42 ∷ 32 ∷ 64 ∷ 112 ∷ 109 ∷ 101 ∷ 109 ∷ 95 ∷ 109 ∷ 97 ∷ 112
    ∷ 95 ∷ 102 ∷ 105 ∷ 108 ∷ 101 ∷ []

-- `PmemAddrTraceItem::FieldSeparator`.
abbrev pub comma : String
comma = 44 ∷ []

abbrev pub is_found : Option ℕ → Bool
is_found none = false
is_found (some pos) = true

-- `varMap->find(item.guid)`.
unfoldable pub find_var : ℕ → GuidMap → Option GuidMapEntry
find_var guid [] = none
find_var guid (e ∷ m) = let rest = find_var guid m in if e.guid == guid then some e else rest

abbrev pub on_pool : String → PmemAddrTraceItem → PmemAddrTraceItem
on_pool instruction item =
    if is_found (find_string pmem_obj_create_call instruction)
    then record item { is_pool = true }
    else (if is_found (find_string pmem_create_call instruction)
        then record item { is_mmap = true }
        else item)

abbrev pub with_var : Option GuidMapEntry → PmemAddrTraceItem → PmemAddrTraceItem
with_var none item = item
with_var (some e) item = on_pool e.instruction (record item { var = some e })

-- The GUID map is none when it is null.
unfoldable pub resolve_var : Option GuidMap → PmemAddrTraceItem → PmemAddrTraceItem
unfolding find_var
resolve_var none item = item
resolve_var (some m) item = with_var (find_var item.guid m) item

-- The address without the prefix `0x` or `0X`.
unfoldable pub read_addr : String → Option ℕ
read_addr [] = str2fmt_hex 64 []
read_addr (c ∷ []) = str2fmt_hex 64 (c ∷ [])
read_addr (c ∷ d ∷ s) =
    if c == 48 && (d == 120 || d == 88) then str2fmt_hex 64 s else str2fmt_hex 64 (c ∷ d ∷ s)

-- How `parse` ends: with true and the item, with false, or `str2fmt` throws.
pub data ParsedItem : Type 0 where
  parsed : PmemAddrTraceItem → ParsedItem
  unrecognized malformed : ParsedItem

unfoldable pub parse_parts : Option GuidMap → List String → ParsedItem
parse_parts var_map (addr_str ∷ guid ∷ []) = elim (read_addr addr_str) [
  | none ↦ malformed
  | some a ↦ elim (str2fmt 64 guid) [
    | none ↦ malformed
    | some g ↦
        parsed (resolve_var var_map (record new_item { addr_str = addr_str; addr = a; guid = g }))
  ]
]
parse_parts var_map _ = unrecognized

unfoldable pub parse : Option GuidMap → String → Run ParsedItem
parse var_map item_str =
    bind (split_list (suc (length item_str)) item_str comma)
      λ (n, parts). returned (parse_parts var_map parts)

-- `PmemAddrTrace::add`.
unfoldable pub add_item : PmemAddrTraceItem → PmemAddrTrace → PmemAddrTrace
add_item item t =
    let items = t.items ++ item ∷ [] in
    let pool : PmemAddrPool = record { pool_addr = length t.items; addresses = [] } in
    if item.is_pool || item.is_mmap
    then record t { items = items; pool_addrs = t.pool_addrs ++ pool ∷ [] }
    else record t { items = items }

unfoldable pub clear : PmemAddrTrace → PmemAddrTrace
clear t = record t { items = []; pool_addrs = [] }

-- The loop of `deserialize`; none when an exception leaves it. A bad line is passed over.
abbrev pub after_parse :
    (PmemAddrTrace → Run (Option PmemAddrTrace))
    → PmemAddrTrace
    → ParsedItem
    → Run (Option PmemAddrTrace)
after_parse again t (parsed item) = again (add_item item t)
after_parse again t unrecognized = again t
after_parse again t malformed = returned none

unfoldable pub read_items :
    Option GuidMap → List String → PmemAddrTrace → Run (Option PmemAddrTrace)
read_items var_map [] t = returned (some t)
read_items var_map (l ∷ ls) t = bind (parse var_map l) λ r. after_parse (read_items var_map ls) t r

-- `deserialize` of what the file holds, none if it cannot be opened: whether it returned true, and
-- the trace.
unfoldable pub deserialize_trace :
    Option String → Option GuidMap → PmemAddrTrace → Bool → Run (Option (Bool × PmemAddrTrace))
deserialize_trace none var_map t ignore_bad_line = returned (some (false, t))
deserialize_trace (some text) var_map t ignore_bad_line =
    bind (read_items var_map (get_lines text) t)
      λ o. elim o [ none ↦ returned none | some t' ↦ returned (some (true, t')) ]

-- The line that the tracker writes for an address and an identifier.
unfoldable pub track_addr : ℕ → ℕ → String
track_addr addr guid = show_pointer addr ++ (comma ++ (show guid ++ newline ∷ []))
