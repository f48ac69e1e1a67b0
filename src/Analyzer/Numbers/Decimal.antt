-- ===== src/Analyzer/Numbers/Decimal.antt =====
-- Reading a printed number (`str2fmt` of analyzer/include/Utils/String.h).
use arthas.Prelude.{
  ℕ, zero, suc, ◌+◌, ◌-◌, ◌*◌, ◌/◌, ◌%◌, ◌^◌, ◌≤◌, ◌<◌, ◌≡◌, Bool, true, false, ◌==◌, ltb, some, [],
  ◌∷◌, All, arith, ap, ◌∙◌, Bool-cases, inl, inr,
}
use arthas.Analyzer.Strings.{String}
use arthas.Analyzer.Numbers.{
  digits, show, is_digit, is_space, skip_space, read_digits, read_signed, str2fmt,
}

-- A text that begins with a digit.
abbrev pub Starts : String → Type 0
Starts s = (c : ℕ) × (t : String) × (s ≡ c ∷ t) × (48 ≤ c) × (c < 58)

pub digits-Starts : (fuel n : ℕ) (s : String) → n < fuel → Starts (digits fuel n s)
unfolding digits
digits-Starts zero n s h = absurd (omega arith)
digits-Starts (suc fuel) n s h = elim (Bool-cases (ltb n 10)) [
  | inl small ↦ (48 + n, s, rw (small, digits), omega arith, ground arith)
  | inr big ↦ rw (big, digits) (digits-Starts fuel (n / 10) ((48 + n % 10) ∷ s) (ground arith))
]

read_digits-step :
    (v : ℕ) (seen : Bool) (d : ℕ) (s : String)
    → d < 10
    → read_digits v seen ((48 + d) ∷ s) ≡ read_digits (v * 10 + d) true s
unfolding read_digits
read_digits-step v seen d s h =
    let e : 48 + d - 48 ≡ d = omega arith in
    let yes : is_digit (48 + d) ≡ true = ground arith in rw (yes, e)

read_digits-digits :
    (fuel n : ℕ) (s : String)
    → n < fuel
    → read_digits 0 false (digits fuel n s) ≡ read_digits n true s
unfolding digits
read_digits-digits zero n s h = absurd (omega arith)
read_digits-digits (suc fuel) n s h = elim (Bool-cases (ltb n 10)) [
  | inl small ↦
      rw (small, digits)
        (read_digits-step 0 false n s (ground arith) ∙ ap (λ v. read_digits v true s) (omega arith))
  | inr big ↦
      rw (big, digits)
        (read_digits-digits fuel (n / 10) ((48 + n % 10) ∷ s) (ground arith)
          ∙ read_digits-step (n / 10) true (n % 10) s (omega arith)
          ∙ ap (λ v. read_digits v true s) (omega arith))
]

str2fmt-starting :
    (w : ℕ) (s : String)
    → Starts s
    → (v : ℕ) → v < 2 ^ w
    → read_digits 0 false s ≡ some v
    → str2fmt w s ≡ some v
unfolding str2fmt skip_space read_signed
str2fmt-starting w s (c, t, e, low, high) v small ran =
    let space : is_space c ≡ false = ground arith in
    let minus : c == 45 ≡ false = ground arith in
    let plus : c == 43 ≡ false = ground arith in
    let fits : ltb v (2 ^ w) ≡ true = ground arith in
    rw e (rw (space, minus, plus) (rw (rw e at ran, fits)))

pub str2fmt-show : (w n : ℕ) → n < 2 ^ w → str2fmt w (show n) ≡ some n
unfolding show read_digits
str2fmt-show w n h =
    str2fmt-starting w (digits (suc n) n []) (digits-Starts (suc n) n [] (omega arith)) n h
      (read_digits-digits (suc n) n [] (omega arith))

digits-All :
    (P : ℕ → Type 0) (fuel n : ℕ) (s : String)
    → ((d : ℕ) → d < 10 → P (48 + d))
    → All P s
    → All P (digits fuel n s)
unfolding digits
digits-All P zero n s p a = a
digits-All P (suc fuel) n s p a = elim (Bool-cases (ltb n 10)) [
  | inl small ↦ rw (small, digits) (p n (ground arith), a)
  | inr big ↦
      rw (big, digits)
        (digits-All P fuel (n / 10) ((48 + n % 10) ∷ s) p (p (n % 10) (omega arith), a))
]

-- A printed number has digits only.
pub show-All : (P : ℕ → Type 0) (n : ℕ) → ((d : ℕ) → d < 10 → P (48 + d)) → All P (show n)
unfolding show
show-All P n p = digits-All P (suc n) n [] p tt
