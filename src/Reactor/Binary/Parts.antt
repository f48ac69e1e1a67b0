-- ===== src/Reactor/Binary/Parts.antt =====
-- The two parts of an array that the search tries.
use arthas.Prelude.{
  ℕ, zero, suc, ◌+◌, ◌-◌, ◌/◌, ◌≤◌, ◌<◌, ◌≡◌, ℤ, true, ◌==◌, ◌&&◌, leb, some, arith, List, [], ◌∷◌,
  take, drop, All, length, length-take, length-drop, if◌then◌else◌,
}
use arthas.Reactor.Decision.{IsSeq}
use arthas.Reactor.Binary.{halves}

All-take : (n : ℕ) (ks : List ℤ) → All IsSeq ks → All IsSeq (take n ks)
All-take zero ks a = tt
All-take (suc n) [] a = tt
All-take (suc n) (k ∷ ks) a = (a.0, All-take n ks a.1)

All-drop : (n : ℕ) (ks : List ℤ) → All IsSeq ks → All IsSeq (drop n ks)
All-drop zero ks a = a
All-drop (suc n) [] a = tt
All-drop (suc n) (k ∷ ks) a = All-drop n ks a.1

-- A part of the array: not empty, no longer than the array, of sequence numbers.
pub record IsPart (n : ℕ) (part : List ℤ) : Type 0 where
  pub some_part : 0 < length part
  pub fits : length part ≤ n
  pub seqs : All IsSeq part

pub halves-IsPart :
    (ks : List ℤ)
    → 0 < length ks
    → All IsSeq ks
    → (left right : List ℤ) × (halves ks 0 (length ks - 1) ≡ some (left, right))
      × IsPart (length ks) left
      × IsPart (length ks) right
unfolding halves
halves-IsPart ks h seqs =
    let n = length ks in
    let mid = 0 + (n - 1 - 0) / 2 in
    let start = if mid == 0 && n == 1 then mid else mid + 1 in
    let inside : leb (mid + 1) n ≡ true = ground arith in
    let short : start + 1 ≤ n = ground arith in
    (
      take (mid + 1) ks,
      drop start ks,
      rw inside,
      record {
        some_part = omega (arith, length-take (mid + 1) ks);
        fits = omega (arith, length-take (mid + 1) ks);
        seqs = All-take (mid + 1) ks seqs;
      },
      record {
        some_part = omega (arith, length-drop start ks);
        fits = omega (arith, length-drop start ks);
        seqs = All-drop start ks seqs;
      },
    )
