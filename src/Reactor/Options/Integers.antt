-- ===== src/Reactor/Options/Integers.antt =====
-- `strtol` in base 10, and the two options that are converted with it (`parse_options` of
-- reactor/lib/reactor-opts.cpp).
use arthas.Prelude.{
  ℕ, suc, ◌+◌, ◌-◌, ◌*◌, ◌^◌, Bool, true, false, ◌==◌, ltb, leb, ℤ, pos, negsuc, to_int, sub_ℕ,
  Option, none, some, [], ◌∷◌, if◌then◌else◌,
}
use arthas.Analyzer.Strings.{String}
use arthas.Analyzer.Numbers.{is_digit, skip_space}

-- The digits up to the first other character, and the rest.
unfoldable pub take_digits : ℕ → String → ℕ × String
take_digits value [] = (value, [])
take_digits value (c ∷ s) =
    let rest = take_digits (value * 10 + (c - 48)) s in if is_digit c then rest else (value, c ∷ s)

-- A `long`: what is out of its range is the nearest end of it.
abbrev pub to_long : Bool → ℕ → ℤ
to_long negative n =
    if negative
    then sub_ℕ 0 (if leb n (2 ^ 63) then n else 2 ^ 63)
    else pos (if ltb n (2 ^ 63) then n else 2 ^ 63 - 1)

unfoldable pub read_long : Bool → String → Option (ℤ × String)
unfolding take_digits
read_long negative [] = none
read_long negative (c ∷ s) =
    let (n, rest) = take_digits 0 (c ∷ s) in
    if is_digit c then some (to_long negative n, rest) else none

unfoldable pub after_space : String → Option (ℤ × String)
unfolding read_long
after_space [] = none
after_space (c ∷ s) =
    if c == 45
    then read_long true s
    else (if c == 43 then read_long false s else read_long false (c ∷ s))

-- The value and the rest of the string; none when no number is there and `pend == optarg`.
unfoldable pub strtol : String → Option (ℤ × String)
unfolding skip_space after_space
strtol s = after_space (skip_space s)

-- The conversion of a `long` to an `int`.
unfoldable pub long_to_int : ℤ → ℤ
unfolding to_int
long_to_int (pos n) = to_int n
long_to_int (negsuc n) = to_int (2 ^ 64 - suc n)

-- `strtol` returns 0 when no number is there.
unfoldable pub int_of : Option (ℤ × String) → ℤ
unfolding long_to_int
int_of none = pos 0
int_of (some (n, rest)) = long_to_int n

unfoldable pub read_int : String → ℤ
unfolding strtol int_of
read_int s = int_of (strtol s)

-- Whether a number was there and the text ends behind it: `pend == optarg || *pend != '\0'`.
unfoldable pub is_whole : Option (ℤ × String) → Bool
is_whole none = false
is_whole (some (n, [])) = true
is_whole (some (n, c ∷ s)) = false

-- The version number, and whether it is valid.
unfoldable pub parse_version : String → ℤ × Bool
unfolding strtol int_of is_whole
parse_version s = (int_of (strtol s), is_whole (strtol s))
