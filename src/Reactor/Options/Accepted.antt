-- ===== src/Reactor/Options/Accepted.antt =====
-- The loop of `parse_options` over the options, and its end (reactor/lib/reactor-opts.cpp).
use arthas.Prelude.{
  ℕ, ◌-◌, ◌^◌, ◌≡◌, refl, Bool, true, false, ◌==◌, not, if◌then◌else◌, ◌<ℤ◌, ◌≤ℤ◌, ℤ, pos, negsuc,
  to_int, Option, none, some, List, [], ◌∷◌, inl, inr, ◌⊎◌, arith, subst, ap, ◌∙◌,
}
use arthas.Analyzer.Strings.{String}
use arthas.Reactor.Options.{
  ReactorOptions, Flags, Received, character, flag, Parsing, exited, answered, cleared, completed,
  initial_flags, set_flag, handle_option, handle_options, check_options, not_zero, finish,
  parse_options,
}
use arthas.Reactor.Options.Integers.{int_of, long_to_int, read_int, parse_version, strtol}
use arthas.Reactor.Options.Complete.{IsComplete, check_options-IsComplete}

-- The values of a C `int`.
abbrev pub IsInt : ℤ → Type 0
IsInt v = (negsuc (2 ^ 31 - 1) ≤ℤ v) × (v <ℤ pos (2 ^ 31))

to_int-IsInt : (n : ℕ) → IsInt (to_int n)
unfolding to_int
to_int-IsInt n = (ground arith, ground arith)

long_to_int-IsInt : (v : ℤ) → IsInt (long_to_int v)
unfolding long_to_int
long_to_int-IsInt (pos n) = to_int-IsInt n
long_to_int-IsInt (negsuc n) = to_int-IsInt _

zero-IsInt : IsInt (pos 0)
zero-IsInt = (omega arith, omega arith)

int_of-IsInt : (o : Option (ℤ × String)) → IsInt (int_of o)
unfolding int_of
int_of-IsInt none = zero-IsInt
int_of-IsInt (some (n, rest)) = long_to_int-IsInt n

read_int-IsInt : (s : String) → IsInt (read_int s)
unfolding read_int
read_int-IsInt s = int_of-IsInt (strtol s)

parse_version-IsInt : (s : String) → IsInt (parse_version s).0
unfolding parse_version
parse_version-IsInt s = int_of-IsInt (strtol s)

abbrev pub HasInts : ReactorOptions → Type 0
HasInts o = IsInt o.version_num × IsInt o.batch_threshold

-- What holds in both branches of a test.
if-either {ℓ κ} :
    {A : Type ℓ} (P : A → Type κ) (b : Bool) {x y : A} → P x → P y → P (if b then x else y)
if-either P true p q = p
if-either P false p q = q

handle_option-HasInts :
    (c : ℕ) (s : String) (o : ReactorOptions) (f : Flags)
    → HasInts o
    → HasInts (handle_option c s o f).options
unfolding handle_option
handle_option-HasInts c s o f h =
    let P : Parsing → Type 0 = λ p. HasInts p.options in
    if-either P (c == 104) h (
      if-either P (c == 112) h (
        if-either P (c == 116) h (
          if-either P (c == 108) h (
            if-either P (c == 110) (parse_version-IsInt s, h.1)
              (if-either P (c == 103) h (
                if-either P (c == 122) h (
                  if-either P (c == 101) (h.0, read_int-IsInt s)
                    (if-either P (c == 97) h (
                      if-either P (c == 114) h (
                        if-either P (c == 99) h
                          (if-either P (c == 105) h (if-either P (c == 98) h h))))))))))))

handle_options-HasInts :
    (received : List Received) (o : ReactorOptions) (f : Flags)
    → HasInts o
    → HasInts (handle_options received o f).options
unfolding handle_options
handle_options-HasInts [] o f h = h
handle_options-HasInts (character c s ∷ rest) o f h =
    let p : Parsing = handle_option c s o f in
    let now : HasInts p.options = handle_option-HasInts c s o f h in
    if-either {A = Parsing} (λ q. HasInts q.options) p.goes_on
      (handle_options-HasInts rest p.options p.flags now) now
handle_options-HasInts (flag row ∷ rest) o f h = handle_options-HasInts rest o (set_flag row f) h

-- What it takes that `parse_options` answers true.
pub record IsAnswered (exists : String → Bool) (p : Parsing) (o : ReactorOptions) (f : Flags)
    : Type 0 where
  pub on : p.goes_on ≡ true
  pub full : completed p ≡ o
  pub same : p.flags ≡ f
  pub checked : (not_zero p.flags.skip_check ≡ true) ⊎ (check_options exists (completed p) ≡ true)

pub finish-IsAnswered :
    (exists : String → Bool) (p : Parsing) (o : ReactorOptions) (f : Flags)
    → finish exists p ≡ answered true o f
    → IsAnswered exists p o f
unfolding finish
finish-IsAnswered exists p o f h =
    ending p.goes_on (not_zero p.flags.show_help) (not_zero p.flags.skip_check) refl refl h
  where
    ending :
        (on help skip : Bool)
        → p.goes_on ≡ on
        → not_zero p.flags.skip_check ≡ skip
        → (if not on
            then answered false p.options p.flags
            else (if help
                then exited
                else (if skip
                    then answered true (completed p) p.flags
                    else answered (check_options exists (completed p)) (completed p) p.flags)))
          ≡ answered true o f
        → IsAnswered exists p o f
    ending false help skip e k h = cc
    ending true true skip e k h = cc
    ending true false true e k h = record { on = e; full = cc; same = cc; checked = inl k }
    ending true false false e k h = record { on = e; full = cc; same = cc; checked = inr cc }

-- When `parse_options` answers true and the check was not skipped, the options are complete
-- (`IsComplete`): the pool file is set and exists, the layout, the GUID map and the command are
-- set, the library is one of the two known ones, the version number is positive, the location of
-- the fault is empty or has one or two colons, and the bytecode file is set; and both numbers are
-- in the range of an int.
pub parse_options-IsAccepted :
    (exists : String → Bool) (received : List Received) (o : ReactorOptions) (f : Flags)
    → parse_options exists received initial_flags ≡ answered true o f
    → f.skip_check ≡ 0
    → IsComplete exists o × HasInts o
unfolding parse_options
parse_options-IsAccepted exists received o f h skip =
    let p : Parsing = handle_options received cleared initial_flags in
    let a = finish-IsAnswered exists p o f h in
    let ints : HasInts p.options =
      handle_options-HasInts received cleared initial_flags (zero-IsInt, zero-IsInt) in
    let same : p.flags.skip_check ≡ 0 = ap (λ f. f.skip_check) a.same ∙ skip in
    subst (λ o. IsComplete exists o × HasInts o) a.full
      (elim a.checked [
        | inl e ↦ let none_there : not_zero p.flags.skip_check ≡ false = rw same in cc
        | inr e ↦ ((check_options-IsComplete exists (completed p)).0 e, ints)
      ])
