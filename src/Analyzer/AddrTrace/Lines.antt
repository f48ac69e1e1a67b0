-- ===== src/Analyzer/AddrTrace/Lines.antt =====
-- Reading what the address tracker wrote (analyzer/runtime/addr_tracker.c,
-- analyzer/lib/Instrument/PmemAddrTrace.cpp).
use arthas.Prelude.{
  ℕ, zero, suc, ◌^◌, ◌<◌, ◌≡◌, ◌≢◌, refl, Bool, true, false, ◌==◌, ◌||◌, Bool-cases, inl, inr,
  Option, none, some, List, [], ◌∷◌, ◌++◌, All, All-append, arith, length, ap, ◌∙◌, sym,
}
use mathlib.Core.List.{append_assoc, append-nil}
use arthas.Reactor.Platform.{returned}
use arthas.Analyzer.Strings.{String, is_prefix, find_string, split_list}
use arthas.Analyzer.Strings.Join.{join, split_list-join, join-long}
use arthas.Analyzer.Numbers.{show}
use arthas.Analyzer.Numbers.Decimal.{str2fmt-show, show-All}
use arthas.Analyzer.Hex.{show_pointer}
use arthas.Analyzer.Hex.RoundTrip.{IsHexText, hex_digits-IsHexText, str2fmt_hex-digits}
use arthas.Analyzer.GuidMap.{GuidMap, newline, get_lines}
use arthas.Analyzer.GuidMap.RoundTrip.{get_lines-line, get_lines-nil}
use arthas.Analyzer.AddrTrace.Pools.Last.{IsBuilt, add_item-IsBuilt}
use arthas.Analyzer.AddrTrace.Items.{AreItems, resolve_var-IsItem}
use arthas.Analyzer.AddrTrace.{
  PmemAddrTraceItem, PmemAddrTrace, new_item, comma, resolve_var, read_addr, parsed, parse_parts,
  parse, add_item, read_items, deserialize_trace, track_addr,
}

-- The file of a list of addresses with their identifiers.
unfoldable pub written : List (ℕ × ℕ) → String
written [] = []
written ((a, g) ∷ l) = track_addr a g ++ written l

-- The item that a line stands for.
abbrev item_of : Option GuidMap → ℕ × ℕ → PmemAddrTraceItem
item_of var_map (a, g) =
    resolve_var var_map (record new_item { addr_str = show_pointer a; addr = a; guid = g })

unfoldable add_all : Option GuidMap → List (ℕ × ℕ) → PmemAddrTrace → PmemAddrTrace
add_all var_map [] t = t
add_all var_map (x ∷ l) t = add_all var_map l (add_item (item_of var_map x) t)

-- The addresses and identifiers that the tracker is given.
abbrev pub IsTracked : ℕ × ℕ → Type 0
IsTracked (a, g) = (0 < a) × (a < 2 ^ 64) × (g < 2 ^ 32)

abbrev IsPlain : ℕ → Type 0
IsPlain c = (c ≢ 44) × (c ≢ newline)

find_string-none : (s : String) → All IsPlain s → find_string comma s ≡ none
unfolding find_string is_prefix
find_string-none [] a = refl
find_string-none (c ∷ s) ((nc, nl), a) =
    let e : 44 == c ≡ false = ground arith in rw (e, find_string-none s a)

no_comma : (s : String) → All IsPlain s → All (λ c. c ≢ 44) s
no_comma [] a = tt
no_comma (c ∷ s) ((nc, nl), a) = (nc, no_comma s a)

no_newline : (s : String) → All IsPlain s → All (λ c. c ≢ newline) s
no_newline [] a = tt
no_newline (c ∷ s) ((nc, nl), a) = (nl, no_newline s a)

show-IsPlain : (n : ℕ) → All IsPlain (show n)
show-IsPlain n = show-All IsPlain n (λ d h. ((λ e. omega (arith, e)), (λ e. omega (arith, e))))

hex-IsPlain : (s : String) → IsHexText s → All IsPlain s
hex-IsPlain [] a = tt
hex-IsPlain (c ∷ s) (h, a) =
    (((λ e. ground (arith, h, e)), (λ e. ground (arith, h, e))), hex-IsPlain s a)

pointer-IsPlain : (a : ℕ) → 0 < a → All IsPlain (show_pointer a)
unfolding show_pointer
pointer-IsPlain zero h = absurd (omega arith)
pointer-IsPlain (suc n) h = (
  ((λ e. omega (arith, e)), (λ e. omega (arith, e))),
  (
    ((λ e. omega (arith, e)), (λ e. omega (arith, e))),
    hex-IsPlain _ (hex_digits-IsHexText (suc (suc n)) (suc n) [] tt),
  ),
)

read_addr-pointer : (a : ℕ) → 0 < a → a < 2 ^ 64 → read_addr (show_pointer a) ≡ some a
unfolding show_pointer read_addr
read_addr-pointer zero h small = absurd (omega arith)
read_addr-pointer (suc n) h small = str2fmt_hex-digits 64 (suc n) small

-- The line without its end.
abbrev line : ℕ → ℕ → String
line a g = join comma (show_pointer a) (show g ∷ [])

track_addr-line : (a g : ℕ) (rest : String) → track_addr a g ++ rest ≡ line a g ++ (newline ∷ rest)
unfolding track_addr join
track_addr-line a g rest =
    append_assoc (show_pointer a) (comma ++ (show g ++ newline ∷ [])) rest
    ∙ ap (λ t. show_pointer a ++ (comma ++ t)) (append_assoc (show g) (newline ∷ []) rest)
    ∙ sym (append_assoc (show_pointer a) (comma ++ show g) (newline ∷ rest))

split-line :
    (a g : ℕ)
    → 0 < a
    → split_list (suc (length (line a g))) (line a g) comma
      ≡ returned (1, show_pointer a ∷ show g ∷ [])
split-line a g h =
    split_list-join 44 [] (show_pointer a) (show g) [] (suc (length (line a g)))
      (let l = join-long 44 [] (show_pointer a) (show g ∷ []) in omega (arith, l))
      (no_comma _ (pointer-IsPlain a h), find_string-none _ (show-IsPlain g))

parse_parts-line :
    (var_map : Option GuidMap) (a g : ℕ)
    → IsTracked (a, g)
    → parse_parts var_map (show_pointer a ∷ show g ∷ []) ≡ parsed (item_of var_map (a, g))
unfolding parse_parts
parse_parts-line var_map a g (h, small, narrow) =
    rw (parse_parts, read_addr-pointer a h small, str2fmt-show 64 g (omega arith))

parse-line :
    (var_map : Option GuidMap) (a g : ℕ)
    → IsTracked (a, g)
    → parse var_map (line a g) ≡ returned (parsed (item_of var_map (a, g)))
unfolding parse
parse-line var_map a g (h, small, narrow) =
    rw (split-line a g h) (ap returned (parse_parts-line var_map a g (h, small, narrow)))

line-one_line : (a g : ℕ) → 0 < a → All (λ c. c ≢ newline) (line a g)
unfolding join
line-one_line a g h =
    All-append (λ c. c ≢ newline) (show_pointer a) (comma ++ show g)
      (no_newline _ (pointer-IsPlain a h)) ((λ e. omega (arith, e)), no_newline _ (show-IsPlain g))

read_items-written :
    (var_map : Option GuidMap) (l : List (ℕ × ℕ)) (t : PmemAddrTrace)
    → All IsTracked l
    → read_items var_map (get_lines (written l)) t ≡ returned (some (add_all var_map l t))
unfolding written read_items add_all
read_items-written var_map [] t a = rw get_lines-nil
read_items-written var_map ((a, g) ∷ l) t (is, all) = rw (track_addr-line a g (written l)) (
    rw (get_lines-line (line a g) (written l) (line-one_line a g is.0)) (
      rw (parse-line var_map a g is)
        (read_items-written var_map l (add_item (item_of var_map (a, g)) t) all)))

add_item-rest :
    (x : PmemAddrTraceItem) (t : PmemAddrTrace)
    → ((add_item x t).items ≡ t.items ++ x ∷ [])
      × ((add_item x t).guid_instr_map ≡ t.guid_instr_map)
      × ((add_item x t).failed_guids ≡ t.failed_guids)
unfolding add_item
add_item-rest x t = elim (Bool-cases (x.is_pool || x.is_mmap)) [
  | inl e ↦ rw e (refl, refl, refl)
  | inr e ↦ rw e (refl, refl, refl)
]

-- The trace has items for the addresses behind those it had, and pools where they make some.
pub record IsExtended (var_map : Option GuidMap) (l : List (ℕ × ℕ)) (t t' : PmemAddrTrace)
    : Type 0 where
  pub items : List PmemAddrTraceItem
  pub items_are : t'.items ≡ t.items ++ items
  pub stand : AreItems var_map l items
  pub built : IsBuilt t'
  pub guid_instr_map : t'.guid_instr_map ≡ t.guid_instr_map
  pub failed_guids : t'.failed_guids ≡ t.failed_guids

add_all-IsExtended :
    (var_map : Option GuidMap) (l : List (ℕ × ℕ)) (t : PmemAddrTrace)
    → IsBuilt t
    → IsExtended var_map l t (add_all var_map l t)
unfolding add_all
add_all-IsExtended var_map [] t b = record {
  items = [];
  items_are = sym (append-nil t.items);
  stand = tt;
  built = b;
  guid_instr_map = refl;
  failed_guids = refl;
}
add_all-IsExtended var_map ((a, g) ∷ l) t b =
    let item = item_of var_map (a, g) in
    let (added, known, failed) = add_item-rest item t in
    let more = add_all-IsExtended var_map l (add_item item t) (add_item-IsBuilt item t b) in
    record {
      items = item ∷ more.items;
      items_are =
          more.items_are
          ∙ ap (λ is. is ++ more.items) added
          ∙ append_assoc t.items (item ∷ []) more.items;
      stand = (resolve_var-IsItem var_map a g, more.stand);
      built = more.built;
      guid_instr_map = more.guid_instr_map ∙ known;
      failed_guids = more.failed_guids ∙ failed;
    }

-- For addresses that are not null and below 2^64 with identifiers below 2^32, `deserialize` of the
-- lines that the address tracker writes for them returns true and adds to a trace whose pools are
-- those of its items (`IsBuilt`) one item for each address, in their order. The item has the
-- address, its text and the identifier; its variable is the first entry of the GUID map with this
-- identifier, or none without a map or such an entry; it is a pool if the instruction of the
-- variable creates one, and a mapped file if it maps one and creates none (`IsItem`). The pools of
-- the trace are again those of its items, and what was matched before stays.
pub deserialize_trace-written :
    (var_map : Option GuidMap) (l : List (ℕ × ℕ)) (t : PmemAddrTrace) (ignore_bad_line : Bool)
    → All IsTracked l
    → IsBuilt t
    → (t' : PmemAddrTrace) × (deserialize_trace (some (written l)) var_map t ignore_bad_line
        ≡ returned (some (true, t')))
      × IsExtended var_map l t t'
unfolding deserialize_trace
deserialize_trace-written var_map l t ignore_bad_line a b =
    (add_all var_map l t, rw (read_items-written var_map l t a), add_all-IsExtended var_map l t b)
