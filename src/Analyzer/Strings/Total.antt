-- ===== src/Analyzer/Strings/Total.antt =====
-- Splitting any string (`splitList` of analyzer/lib/Utils/String.cpp).
use arthas.Prelude.{
  ℕ, zero, suc, ◌+◌, ◌<◌, ◌≡◌, refl, true, ==_iff, none, some, List, [], ◌∷◌, ◌++◌, arith, length,
  take, drop, ap, ◌∙◌, sym, Bool-cases, Option-cases, inl, inr, some_inj, length-append,
}
use arthas.Reactor.Platform.{returned}
use arthas.Analyzer.Strings.{String, is_prefix, find_string, split_from, split_list}
use arthas.Analyzer.Strings.Join.{join}

is_prefix_splits : (p s : String) → is_prefix p s ≡ true → s ≡ p ++ drop (length p) s
unfolding is_prefix
is_prefix_splits [] s e = refl
is_prefix_splits (c ∷ p) [] e = cc
is_prefix_splits (c ∷ p) (d ∷ s) e =
    let same : c ≡ d = ground (arith, ==_iff c d) in
    let rest : is_prefix p s ≡ true = ground arith in
    rw same (ap (λ t. d ∷ t) (is_prefix_splits p s rest))

module _ (h : ℕ) (t : String) where
  -- The string around the first separator.
  find_string_splits :
      (s : String) (end : ℕ)
      → find_string (h ∷ t) s ≡ some end
      → s ≡ take end s ++ ((h ∷ t) ++ drop (end + length (h ∷ t)) s)
  unfolding find_string is_prefix
  find_string_splits [] end e = cc
  find_string_splits (c ∷ s) end e = elim (Bool-cases (is_prefix (h ∷ t) (c ∷ s))) [
    | inl here ↦ at_front end (some_inj (sym e ∙ rw here)) here
    | inr elsewhere ↦ elim (Option-cases (find_string (h ∷ t) s)) [
      | inl nowhere ↦ absurd (empty end (sym e ∙ rw (elsewhere, nowhere)))
      | inr (k, found) ↦
          behind k (find_string_splits s k found) end (some_inj (sym e ∙ rw (elsewhere, found)))
    ]
  ]
    where
      empty : (n : ℕ) → ¬ (some n ≡ none)
      empty n x = cc

      at_front :
          (k : ℕ)
          → k ≡ 0
          → is_prefix (h ∷ t) (c ∷ s) ≡ true
          → c ∷ s ≡ take k (c ∷ s) ++ ((h ∷ t) ++ drop (k + length (h ∷ t)) (c ∷ s))
      at_front k z here =
          let sum : 0 + suc (length t) ≡ suc (length t) = omega arith in
          rw z (rw sum (is_prefix_splits (h ∷ t) (c ∷ s) here))

      behind :
          (k : ℕ)
          → s ≡ take k s ++ ((h ∷ t) ++ drop (k + length (h ∷ t)) s)
          → (j : ℕ) → j ≡ suc k
          → c ∷ s ≡ take j (c ∷ s) ++ ((h ∷ t) ++ drop (j + length (h ∷ t)) (c ∷ s))
      behind k splits j z =
          let sum : suc k + suc (length t) ≡ suc (k + suc (length t)) = omega arith in
          rw z (rw sum (ap (λ x. c ∷ x) splits))

  -- Each round takes something away.
  shorter :
      (s : String) (end : ℕ)
      → s ≡ take end s ++ ((h ∷ t) ++ drop (end + length (h ∷ t)) s)
      → length (drop (end + length (h ∷ t)) s) < length s
  shorter s end e =
      let rest = drop (end + length (h ∷ t)) s in
      omega (
        arith,
        ap length e,
        length-append (take end s) ((h ∷ t) ++ rest),
        length-append (h ∷ t) rest,
      )

  split_from-Total :
      (fuel : ℕ) (s : String)
      → length s < fuel
      → (p : String) × (ps : List String) × (split_from fuel (h ∷ t) s
          ≡ returned (length ps, p ∷ ps))
        × (join (h ∷ t) p ps ≡ s)
  unfolding split_from join
  split_from-Total zero s enough = absurd (omega arith)
  split_from-Total (suc fuel) s enough = elim (Option-cases (find_string (h ∷ t) s)) [
    | inl nowhere ↦ (s, [], rw (nowhere, split_from), refl)
    | inr (end, found) ↦
        let splits = find_string_splits s end found in
        let (p, ps, ran, joined) =
          split_from-Total fuel (drop (end + length (h ∷ t)) s)
            (omega (arith, shorter s end splits)) in
        (
          take end s,
          p ∷ ps,
          rw (found, split_from)
              (rw ran (ap (λ n. returned (n, take end s ∷ p ∷ ps)) (omega arith))),
          ap (λ x. take end s ++ ((h ∷ t) ++ x)) joined ∙ sym splits,
        )
  ]

  -- For a separator and a string that are not empty, and fuel above the length of the string,
  -- `splitList` ends, it returns one less than the number of the pieces, and the pieces joined by
  -- the separator are the string.
  pub split_list-Total :
      (c : ℕ) (s : String) (fuel : ℕ)
      → length (c ∷ s) < fuel
      → (p : String) × (ps : List String) × (split_list fuel (c ∷ s) (h ∷ t)
          ≡ returned (length ps, p ∷ ps))
        × (join (h ∷ t) p ps ≡ c ∷ s)
  unfolding split_list
  split_list-Total c s fuel enough = split_from-Total fuel (c ∷ s) enough
