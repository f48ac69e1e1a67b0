-- ===== src/Reactor/Options/Versions.antt =====
-- The version number of the command line (`parse_options` of reactor/lib/reactor-opts.cpp).
use arthas.Prelude.{
  ℕ, zero, suc, ◌+◌, ◌-◌, ◌*◌, ◌/◌, ◌%◌, ◌^◌, ◌<◌, ◌≡◌, true, false, ◌==◌, ltb, pos, to_int, some,
  [], ◌∷◌, arith, ap, ◌∙◌, Bool-cases, inl, inr,
}
use arthas.Analyzer.Strings.{String}
use arthas.Analyzer.Numbers.{digits, show, is_digit, is_space, skip_space}
use arthas.Analyzer.Numbers.Decimal.{Starts, digits-Starts}
use arthas.Reactor.Options.Integers.{
  take_digits, read_long, after_space, strtol, long_to_int, int_of, is_whole, parse_version,
}

take_digits-step :
    (v d : ℕ) (s : String) → d < 10 → take_digits v ((48 + d) ∷ s) ≡ take_digits (v * 10 + d) s
unfolding take_digits
take_digits-step v d s h =
    let e : 48 + d - 48 ≡ d = omega arith in
    let yes : is_digit (48 + d) ≡ true = ground arith in rw (yes, e)

take_digits-digits :
    (fuel n : ℕ) (s : String) → n < fuel → take_digits 0 (digits fuel n s) ≡ take_digits n s
unfolding digits
take_digits-digits zero n s h = absurd (omega arith)
take_digits-digits (suc fuel) n s h = elim (Bool-cases (ltb n 10)) [
  | inl small ↦
      rw (small, digits)
        (take_digits-step 0 n s (ground arith) ∙ ap (λ v. take_digits v s) (omega arith))
  | inr big ↦
      rw (big, digits)
        (take_digits-digits fuel (n / 10) ((48 + n % 10) ∷ s) (ground arith)
          ∙ take_digits-step (n / 10) (n % 10) s (omega arith)
          ∙ ap (λ v. take_digits v s) (omega arith))
]

strtol-starting :
    (s : String)
    → Starts s
    → (n : ℕ) → n < 2 ^ 63
    → take_digits 0 s ≡ (n, [])
    → strtol s ≡ some (pos n, [])
unfolding strtol skip_space after_space read_long
strtol-starting s (c, t, e, low, high) n small ran =
    let space : is_space c ≡ false = ground arith in
    let minus : c == 45 ≡ false = ground arith in
    let plus : c == 43 ≡ false = ground arith in
    let digit : is_digit c ≡ true = ground arith in
    let fits : ltb n (2 ^ 63) ≡ true = ground arith in
    rw e (rw (space, minus, plus) (rw (rw e at ran, digit, fits)))

-- A version number below 2^63 in decimal digits is accepted as a whole number, and taken for what
-- its conversion to a 32-bit int gives.
pub parse_version-show : (n : ℕ) → n < 2 ^ 63 → parse_version (show n) ≡ (to_int n, true)
unfolding parse_version int_of is_whole show take_digits long_to_int
parse_version-show n h =
    let e : strtol (digits (suc n) n []) ≡ some (pos n, []) =
      strtol-starting (digits (suc n) n []) (digits-Starts (suc n) n [] (omega arith)) n h
        (take_digits-digits (suc n) n [] (omega arith)) in
    rw e
