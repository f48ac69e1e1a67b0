-- ===== src/Reactor/Options/Switches.antt =====
-- The long options that set a flag (reactor/lib/reactor-opts.cpp).
use arthas.Prelude.{
  ℕ, zero, suc, ◌≡◌, refl, Bool, true, false, ◌==◌, if◌then◌else◌, Option, none, some, List, [],
  ◌∷◌, Bool-cases, inl, inr, arith, ap, ◌∙◌, ◌<◌,
}
use arthas.Analyzer.Strings.{String}
use arthas.Reactor.Options.{
  ReactorOptions, Flags, Received, character, flag, Parsing, set_flag, handle_option,
  handle_options, not_zero,
}

-- What the row of `long_options` says of a switch that one row turns on, and perhaps one turns off.
abbrev pub turned : ℕ → Option ℕ → ℕ → Option Bool
turned on none row = if row == on then some true else none
turned on (some off) row =
    if row == on then some true else (if row == off then some false else none)

abbrev pub latest : Bool → Option Bool → Bool
latest b none = b
latest b (some c) = c

-- The switch after the last of its rows, or as it was at the start.
unfoldable pub switched : ℕ → Option ℕ → Bool → List Received → Bool
switched on off b [] = b
switched on off b (character c s ∷ rest) = switched on off b rest
switched on off b (flag row ∷ rest) = switched on off (latest b (turned on off row)) rest

-- The flag follows the switch, row by row.
abbrev pub Follows : (Flags → ℕ) → ℕ → Option ℕ → Type 0
Follows get on off =
    (row : ℕ) (f : Flags)
    → not_zero (get (set_flag row f)) ≡ latest (not_zero (get f)) (turned on off row)

-- A property of the rows, and of the numbers behind them.
by_row :
    (P : ℕ → Type 0)
    → P 0
    → P 1
    → P 2
    → P 3
    → P 4
    → P 5
    → P 6
    → P 7
    → P 8
    → P 9
    → P 10
    → P 11
    → ((n : ℕ) → P (suc (suc (suc (suc (suc (suc (suc (suc (suc (suc (suc (suc n)))))))))))))
    → (row : ℕ) → P row
by_row P a b c d e f g h i j k l m zero = a
by_row P a b c d e f g h i j k l m (suc zero) = b
by_row P a b c d e f g h i j k l m (suc (suc zero)) = c
by_row P a b c d e f g h i j k l m (suc (suc (suc zero))) = d
by_row P a b c d e f g h i j k l m (suc (suc (suc (suc zero)))) = e
by_row P a b c d e f g h i j k l m (suc (suc (suc (suc (suc zero))))) = f
by_row P a b c d e f g h i j k l m (suc (suc (suc (suc (suc (suc zero)))))) = g
by_row P a b c d e f g h i j k l m (suc (suc (suc (suc (suc (suc (suc zero))))))) = h
by_row P a b c d e f g h i j k l m (suc (suc (suc (suc (suc (suc (suc (suc zero)))))))) = i
by_row P a b c d e f g h i j k l m (suc (suc (suc (suc (suc (suc (suc (suc (suc zero))))))))) = j
by_row P a b c d e f g h i j k l m
      (suc (suc (suc (suc (suc (suc (suc (suc (suc (suc zero)))))))))) =
    k
by_row P a b c d e f g h i j k l m
      (suc (suc (suc (suc (suc (suc (suc (suc (suc (suc (suc zero))))))))))) =
    l
by_row P a b c d e f g h i j k l m
      (suc (suc (suc (suc (suc (suc (suc (suc (suc (suc (suc (suc n)))))))))))) =
    m n

-- Numbers behind the rows turn nothing.
turned-past :
    (on : ℕ) (off : Option ℕ) (n : ℕ)
    → on < 12
    → (elim off [ none ↦ 0 | some o ↦ o ]) < 12
    → turned on off (suc (suc (suc (suc (suc (suc (suc (suc (suc (suc (suc (suc n)))))))))))) ≡ none
turned-past on none n h k = ground arith
turned-past on (some off) n h k = ground arith

-- The options that are set by characters leave the flags but `show_help`.
module _ (get : Flags → ℕ) (spared : (f : Flags) → get (record f { show_help = 1 }) ≡ get f) where
  handle_option-kept :
      (c : ℕ) (s : String) (o : ReactorOptions) (f : Flags)
      → get (handle_option c s o f).flags ≡ get f
  unfolding handle_option
  handle_option-kept c s o f = ground (arith, spared f)

  pub handle_options-switched :
      (on : ℕ) (off : Option ℕ)
      → Follows get on off
      → (received : List Received) (o : ReactorOptions) (f : Flags)
      → (handle_options received o f).goes_on ≡ true
      → not_zero (get (handle_options received o f).flags)
        ≡ switched on off (not_zero (get f)) received
  unfolding handle_options switched
  handle_options-switched on off follows [] o f h = refl
  handle_options-switched on off follows (flag row ∷ rest) o f h =
      handle_options-switched on off follows rest o (set_flag row f) h
      ∙ ap (λ b. switched on off b rest) (follows row f)
  handle_options-switched on off follows (character c s ∷ rest) o f h =
      let p : Parsing = handle_option c s o f in
      elim (Bool-cases p.goes_on) [
        | inl e ↦ rw e (
            handle_options-switched on off follows rest p.options p.flags (rw e at h)
            ∙ ap (λ n. switched on off (not_zero n) rest) (handle_option-kept c s o f))
        | inr e ↦ let h' : false ≡ true = rw e at h in cc
      ]

pub enable_pta-Follows : Follows (λ f. f.enable_pta) 2 (some 3)
unfolding set_flag
enable_pta-Follows row f =
    by_row
      (λ r.
        not_zero (set_flag r f).enable_pta ≡ latest (not_zero f.enable_pta) (turned 2 (some 3) r))
      refl refl refl refl refl refl refl refl refl refl refl refl
      (λ n. rw (turned-past 2 (some 3) n (omega arith) (omega arith)) refl) row

pub enable_control-Follows : Follows (λ f. f.enable_control) 4 (some 5)
unfolding set_flag
enable_control-Follows row f =
    by_row
      (λ r.
        not_zero (set_flag r f).enable_control
        ≡ latest (not_zero f.enable_control) (turned 4 (some 5) r))
      refl refl refl refl refl refl refl refl refl refl refl refl
      (λ n. rw (turned-past 4 (some 5) n (omega arith) (omega arith)) refl) row

pub slice_control-Follows : Follows (λ f. f.slice_control) 6 none
unfolding set_flag
slice_control-Follows row f =
    by_row
      (λ r.
        not_zero (set_flag r f).slice_control ≡ latest (not_zero f.slice_control) (turned 6 none r))
      refl refl refl refl refl refl refl refl refl refl refl refl
      (λ n. rw (turned-past 6 none n (omega arith) (omega arith)) refl) row

pub support_thread-Follows : Follows (λ f. f.support_thread) 7 (some 8)
unfolding set_flag
support_thread-Follows row f =
    by_row
      (λ r.
        not_zero (set_flag r f).support_thread
        ≡ latest (not_zero f.support_thread) (turned 7 (some 8) r))
      refl refl refl refl refl refl refl refl refl refl refl refl
      (λ n. rw (turned-past 7 (some 8) n (omega arith) (omega arith)) refl) row

pub intra_procedural-Follows : Follows (λ f. f.intra_procedural) 9 none
unfolding set_flag
intra_procedural-Follows row f =
    by_row
      (λ r.
        not_zero (set_flag r f).intra_procedural
        ≡ latest (not_zero f.intra_procedural) (turned 9 none r))
      refl refl refl refl refl refl refl refl refl refl refl refl
      (λ n. rw (turned-past 9 none n (omega arith) (omega arith)) refl) row

pub inter_procedural-Follows : Follows (λ f. f.inter_procedural) 10 none
unfolding set_flag
inter_procedural-Follows row f =
    by_row
      (λ r.
        not_zero (set_flag r f).inter_procedural
        ≡ latest (not_zero f.inter_procedural) (turned 10 none r))
      refl refl refl refl refl refl refl refl refl refl refl refl
      (λ n. rw (turned-past 10 none n (omega arith) (omega arith)) refl) row

pub entry_only-Follows : Follows (λ f. f.entry_only) 11 none
unfolding set_flag
entry_only-Follows row f =
    by_row
      (λ r. not_zero (set_flag r f).entry_only ≡ latest (not_zero f.entry_only) (turned 11 none r))
      refl refl refl refl refl refl refl refl refl refl refl refl
      (λ n. rw (turned-past 11 none n (omega arith) (omega arith)) refl) row
