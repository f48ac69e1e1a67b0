-- ===== src/Analyzer/AddrTrace/Items.antt =====
-- The items that stand for written addresses, and their variables in the GUID map
-- (analyzer/lib/Instrument/PmemAddrTrace.cpp).
use arthas.Prelude.{
  ℕ, ◌≡◌, ◌≢◌, refl, Bool, false, ◌&&◌, ◌==◌, ==_iff, not, Option, none, some, List, [], ◌∷◌, ◌++◌,
  All, ap, arith, Bool-cases, inl, inr, sym,
}
use arthas.Analyzer.Strings.{String, find_string}
use arthas.Analyzer.Hex.{show_pointer}
use arthas.Analyzer.GuidMap.{GuidMapEntry, GuidMap}
use arthas.Analyzer.AddrTrace.{
  PmemAddrTraceItem, new_item, pmem_obj_create_call, pmem_create_call, is_found, find_var, with_var,
  resolve_var,
}

-- The variable is the first one of the map with the identifier, and there is none without a map or
-- if no entry has the identifier.
abbrev pub IsVarOf : Option GuidMap → ℕ → Option GuidMapEntry → Type 0
IsVarOf none guid var = var ≡ none
IsVarOf (some m) guid none = All (λ e. e.guid ≢ guid) m
IsVarOf (some m) guid (some e) =
    (e.guid ≡ guid)
    × (before : GuidMap) × (after : GuidMap) × (m ≡ before ++ e ∷ after)
    × All (λ d. d.guid ≢ guid) before

-- The instruction of the variable has the call.
abbrev pub calls : String → Option GuidMapEntry → Bool
calls call none = false
calls call (some e) = is_found (find_string call e.instruction)

-- The item stands for the address with the identifier.
pub record IsItem (var_map : Option GuidMap) (a g : ℕ) (item : PmemAddrTraceItem) : Type 0 where
  pub addr_str : item.addr_str ≡ show_pointer a
  pub addr : item.addr ≡ a
  pub guid : item.guid ≡ g
  pub var : IsVarOf var_map g item.var
  pub is_pool : item.is_pool ≡ calls pmem_obj_create_call item.var
  pub is_mmap :
      item.is_mmap ≡ (not (calls pmem_obj_create_call item.var) && calls pmem_create_call item.var)
  pub pool_offset : item.pool_offset ≡ 0
  pub instr : item.instr ≡ none

-- The items stand for the addresses, one for one and in their order.
abbrev pub AreItems : Option GuidMap → List (ℕ × ℕ) → List PmemAddrTraceItem → Type 0
AreItems var_map [] [] = Unit
AreItems var_map [] (item ∷ items) = ⊥
AreItems var_map (x ∷ l) [] = ⊥
AreItems var_map ((a, g) ∷ l) (item ∷ items) = IsItem var_map a g item × AreItems var_map l items

find_var-IsVarOf : (guid : ℕ) (m : GuidMap) → IsVarOf (some m) guid (find_var guid m)
unfolding find_var
find_var-IsVarOf guid [] = tt
find_var-IsVarOf guid (e ∷ m) = elim (Bool-cases (e.guid == guid)) [
  | inl same ↦ rw same ((==_iff e.guid guid).0 same, [], m, refl, tt)
  | inr other ↦
      rw other (behind (find_var guid m) (λ s. ground (arith, other, s)) (find_var-IsVarOf guid m))
]
  where
    behind :
        (o : Option GuidMapEntry)
        → e.guid ≢ guid
        → IsVarOf (some m) guid o
        → IsVarOf (some (e ∷ m)) guid o
    behind none ne all = (ne, all)
    behind (some d) ne (same, before, after, split, all) =
        (same, e ∷ before, after, ap (λ l. e ∷ l) split, (ne, all))

abbrev pub read_item : ℕ → ℕ → PmemAddrTraceItem
read_item a g = record new_item { addr_str = show_pointer a; addr = a; guid = g }

with_var-IsItem :
    (var_map : Option GuidMap) (a g : ℕ) (var : Option GuidMapEntry)
    → IsVarOf var_map g var
    → IsItem var_map a g (with_var var (read_item a g))
with_var-IsItem var_map a g none is = record {
  addr_str = refl;
  addr = refl;
  guid = refl;
  var = is;
  is_pool = refl;
  is_mmap = refl;
  pool_offset = refl;
  instr = refl;
}
with_var-IsItem var_map a g (some e) is =
    elim (Bool-cases (is_found (find_string pmem_obj_create_call e.instruction))) [
      | inl obj ↦ rw obj (record {
        addr_str = refl;
        addr = refl;
        guid = refl;
        var = is;
        is_pool = sym obj;
        is_mmap = rw obj refl;
        pool_offset = refl;
        instr = refl;
      })
      | inr no_obj ↦ elim (Bool-cases (is_found (find_string pmem_create_call e.instruction))) [
        | inl map_file ↦ rw no_obj (
            rw map_file (record {
              addr_str = refl;
              addr = refl;
              guid = refl;
              var = is;
              is_pool = sym no_obj;
              is_mmap = rw no_obj (sym map_file);
              pool_offset = refl;
              instr = refl;
            }))
        | inr no_map ↦ rw no_obj (
            rw no_map (record {
              addr_str = refl;
              addr = refl;
              guid = refl;
              var = is;
              is_pool = sym no_obj;
              is_mmap = rw no_obj (sym no_map);
              pool_offset = refl;
              instr = refl;
            }))
      ]
    ]

pub resolve_var-IsItem :
    (var_map : Option GuidMap) (a g : ℕ) → IsItem var_map a g (resolve_var var_map (read_item a g))
unfolding resolve_var
resolve_var-IsItem none a g = with_var-IsItem none a g none refl
resolve_var-IsItem (some m) a g = with_var-IsItem (some m) a g (find_var g m) (find_var-IsVarOf g m)
