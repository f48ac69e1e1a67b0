-- ===== src/Analyzer/Hex.antt =====
-- Numbers in hexadecimal: `str2fmt` with `hex` (analyzer/include/Utils/String.h) at an unsigned
-- type of `w` bits, and the pointers that analyzer/runtime/addr_tracker.c prints.
pub mod RoundTrip
use arthas.Prelude.{
  ℕ, zero, suc, ◌+◌, ◌-◌, ◌*◌, ◌/◌, ◌%◌, ◌^◌, Bool, true, false, ◌&&◌, ◌||◌, ◌==◌, ltb, leb, Option,
  none, some, [], ◌∷◌, if◌then◌else◌, ◌>>=◌,
}
use arthas.Analyzer.Strings.{String}
use arthas.Analyzer.Numbers.{in_range, is_digit, skip_space}

abbrev pub hex_digit : ℕ → ℕ
hex_digit d = if ltb d 10 then 48 + d else 87 + d

unfoldable pub hex_digits : ℕ → ℕ → String → String
hex_digits zero n s = s
hex_digits (suc fuel) n s =
    let more = hex_digits fuel (n / 16) (hex_digit (n % 16) ∷ s) in
    if ltb n 16 then hex_digit n ∷ s else more

-- `%p`: "(nil)" for the null pointer.
unfoldable pub show_pointer : ℕ → String
unfolding hex_digits
show_pointer zero = 40 ∷ 110 ∷ 105 ∷ 108 ∷ 41 ∷ []
show_pointer (suc n) = 48 ∷ 120 ∷ hex_digits (suc (suc n)) (suc n) []

abbrev pub is_hex : ℕ → Bool
is_hex c = is_digit c || (leb 97 c && leb c 102) || (leb 65 c && leb c 70)

abbrev pub hex_value : ℕ → ℕ
hex_value c = if is_digit c then c - 48 else (if leb 97 c then c - 87 else c - 55)

-- The digits up to the first other character; `seen` says whether there was one.
unfoldable pub read_hex : ℕ → Bool → String → Option ℕ
read_hex value seen [] = if seen then some value else none
read_hex value seen (c ∷ s) =
    let rest = read_hex (value * 16 + hex_value c) true s in
    if is_hex c then rest else (if seen then some value else none)

-- A prefix `0x` or `0X`, which the stream reads over.
unfoldable pub read_prefixed : String → Option ℕ
unfolding read_hex
read_prefixed [] = none
read_prefixed (c ∷ []) = read_hex 0 false (c ∷ [])
read_prefixed (c ∷ d ∷ s) =
    if c == 48 && (d == 120 || d == 88) then read_hex 0 false s else read_hex 0 false (c ∷ d ∷ s)

unfoldable pub read_signed_hex : ℕ → String → Option ℕ
unfolding read_prefixed
read_signed_hex w [] = none
read_signed_hex w (c ∷ s) =
    if c == 45
    then in_range w true (read_prefixed s)
    else (if c == 43
        then in_range w false (read_prefixed s)
        else in_range w false (read_prefixed (c ∷ s)))

-- none when the extraction fails and `str2fmt` throws.
unfoldable pub str2fmt_hex : ℕ → String → Option ℕ
unfolding skip_space read_signed_hex
str2fmt_hex w s = read_signed_hex w (skip_space s)
