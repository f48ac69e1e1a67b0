-- ===== src/Analyzer/Hex/RoundTrip.antt =====
-- Reading a printed pointer (analyzer/include/Utils/String.h, analyzer/runtime/addr_tracker.c).
use arthas.Prelude.{
  ℕ, zero, suc, ◌+◌, ◌*◌, ◌/◌, ◌%◌, ◌^◌, ◌<◌, ◌≡◌, ◌≢◌, refl, Bool, true, false, ◌&&◌, ◌||◌, ◌==◌,
  ltb, some, [], ◌∷◌, All, arith, ap, ◌∙◌, Bool-cases, inl, inr,
}
use arthas.Analyzer.Strings.{String}
use arthas.Analyzer.Numbers.{is_space, skip_space}
use arthas.Analyzer.Hex.{
  hex_digit, hex_digits, is_hex, hex_value, read_hex, read_prefixed, read_signed_hex, str2fmt_hex,
}

-- A text of hexadecimal digits.
abbrev pub IsHexText : String → Type 0
IsHexText = All (λ c. is_hex c ≡ true)

hex_digit-hex : (d : ℕ) → d < 16 → is_hex (hex_digit d) ≡ true
hex_digit-hex d h = ground arith

hex_digit-value : (d : ℕ) → d < 16 → hex_value (hex_digit d) ≡ d
hex_digit-value d h = ground arith

read_hex-step :
    (v : ℕ) (seen : Bool) (d : ℕ) (s : String)
    → d < 16
    → read_hex v seen (hex_digit d ∷ s) ≡ read_hex (v * 16 + d) true s
unfolding read_hex
read_hex-step v seen d s h = rw (hex_digit-hex d h, hex_digit-value d h)

read_hex-digits :
    (fuel n : ℕ) (s : String)
    → n < fuel
    → read_hex 0 false (hex_digits fuel n s) ≡ read_hex n true s
unfolding hex_digits
read_hex-digits zero n s h = absurd (omega arith)
read_hex-digits (suc fuel) n s h = elim (Bool-cases (ltb n 16)) [
  | inl small ↦
      rw (small, hex_digits)
        (read_hex-step 0 false n s (ground arith) ∙ ap (λ v. read_hex v true s) (omega arith))
  | inr big ↦
      rw (big, hex_digits)
        (read_hex-digits fuel (n / 16) (hex_digit (n % 16) ∷ s) (ground arith)
          ∙ read_hex-step (n / 16) true (n % 16) s (omega arith)
          ∙ ap (λ v. read_hex v true s) (omega arith))
]

pub hex_digits-IsHexText : (fuel n : ℕ) (s : String) → IsHexText s → IsHexText (hex_digits fuel n s)
unfolding hex_digits
hex_digits-IsHexText zero n s a = a
hex_digits-IsHexText (suc fuel) n s a = elim (Bool-cases (ltb n 16)) [
  | inl small ↦ rw (small, hex_digits) (hex_digit-hex n (ground arith), a)
  | inr big ↦
      rw (big, hex_digits)
        (hex_digits-IsHexText fuel (n / 16) (hex_digit (n % 16) ∷ s)
          (hex_digit-hex (n % 16) (omega arith), a))
]

-- A text of digits has no prefix.
read_prefixed-text : (s : String) → IsHexText s → s ≢ [] → read_prefixed s ≡ read_hex 0 false s
unfolding read_prefixed
read_prefixed-text [] a ne = absurd (ne refl)
read_prefixed-text (c ∷ []) a ne = refl
read_prefixed-text (c ∷ d ∷ s) (hc, (hd, a)) ne =
    let e : (c == 48 && (d == 120 || d == 88)) ≡ false = ground arith in rw e

str2fmt_hex-text :
    (w n : ℕ) (s : String)
    → IsHexText s
    → s ≢ []
    → n < 2 ^ w
    → read_hex 0 false s ≡ some n
    → str2fmt_hex w s ≡ some n
unfolding str2fmt_hex skip_space read_signed_hex
str2fmt_hex-text w n [] a ne small ran = absurd (ne refl)
str2fmt_hex-text w n (c ∷ s) (hc, a) ne small ran =
    let space : is_space c ≡ false = ground arith in
    let minus : c == 45 ≡ false = ground arith in
    let plus : c == 43 ≡ false = ground arith in
    let fits : ltb n (2 ^ w) ≡ true = ground arith in
    rw (space, minus, plus, read_prefixed-text (c ∷ s) (hc, a) ne) (rw (ran, fits))

hex_digits_behind : (fuel n c : ℕ) (s : String) → hex_digits fuel n (c ∷ s) ≢ []
unfolding hex_digits
hex_digits_behind zero n c s = λ e. cc
hex_digits_behind (suc fuel) n c s = elim (Bool-cases (ltb n 16)) [
  | inl small ↦ rw (small, hex_digits) (λ e. cc)
  | inr big ↦ rw (big, hex_digits) (hex_digits_behind fuel (n / 16) (hex_digit (n % 16)) (c ∷ s))
]

hex_digits_nonempty : (fuel n : ℕ) → hex_digits (suc fuel) n [] ≢ []
unfolding hex_digits
hex_digits_nonempty fuel n = elim (Bool-cases (ltb n 16)) [
  | inl small ↦ rw (small, hex_digits) (λ e. cc)
  | inr big ↦ rw (big, hex_digits) (hex_digits_behind fuel (n / 16) (hex_digit (n % 16)) [])
]

pub str2fmt_hex-digits : (w n : ℕ) → n < 2 ^ w → str2fmt_hex w (hex_digits (suc n) n []) ≡ some n
unfolding read_hex
str2fmt_hex-digits w n h =
    str2fmt_hex-text w n (hex_digits (suc n) n []) (hex_digits-IsHexText (suc n) n [] tt)
      (hex_digits_nonempty n n) h (read_hex-digits (suc n) n [] (omega arith))
