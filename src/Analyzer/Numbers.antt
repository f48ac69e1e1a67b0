-- ===== src/Analyzer/Numbers.antt =====
-- Numbers as text: `operator<<` and `str2fmt` (analyzer/include/Utils/String.h) at an unsigned
-- type of `w` bits.
pub mod Decimal
use arthas.Prelude.{
  ℕ, zero, suc, ◌+◌, ◌-◌, ◌*◌, ◌/◌, ◌%◌, ◌^◌, Bool, true, false, ◌&&◌, ◌||◌, ◌==◌, ltb, leb, Option,
  none, some, [], ◌∷◌, if◌then◌else◌, ◌>>=◌,
}
use arthas.Analyzer.Strings.{String}

-- The decimal digits of a number, before a text.
unfoldable pub digits : ℕ → ℕ → String → String
digits zero n s = s
digits (suc fuel) n s =
    let more = digits fuel (n / 10) ((48 + n % 10) ∷ s) in if ltb n 10 then (48 + n) ∷ s else more

unfoldable pub show : ℕ → String
unfolding digits
show n = digits (suc n) n []

abbrev pub is_digit : ℕ → Bool
is_digit c = leb 48 c && ltb c 58

-- Blank, tabulator, line feed, vertical tabulator, form feed and carriage return.
abbrev pub is_space : ℕ → Bool
is_space c = c == 32 || (leb 9 c && leb c 13)

unfoldable pub skip_space : String → String
skip_space [] = []
skip_space (c ∷ s) = let rest = skip_space s in if is_space c then rest else c ∷ s

-- The digits up to the first other character; `seen` says whether there was one.
unfoldable pub read_digits : ℕ → Bool → String → Option ℕ
read_digits value seen [] = if seen then some value else none
read_digits value seen (c ∷ s) =
    let rest = read_digits (value * 10 + (c - 48)) true s in
    if is_digit c then rest else (if seen then some value else none)

abbrev pub in_range : ℕ → Bool → Option ℕ → Option ℕ
in_range w negative o = do
  v ← o
  if ltb v (2 ^ w) then some (if negative then (2 ^ w - v) % 2 ^ w else v) else none

-- An optional sign, then digits; none when the extraction fails and `str2fmt` throws.
unfoldable pub read_signed : ℕ → String → Option ℕ
unfolding read_digits
read_signed w [] = none
read_signed w (c ∷ s) =
    if c == 45
    then in_range w true (read_digits 0 false s)
    else (if c == 43
        then in_range w false (read_digits 0 false s)
        else in_range w false (read_digits 0 false (c ∷ s)))

unfoldable pub str2fmt : ℕ → String → Option ℕ
unfolding skip_space read_signed
str2fmt w s = read_signed w (skip_space s)
