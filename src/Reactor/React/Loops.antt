-- ===== src/Reactor/React/Loops.antt =====
-- How the loops of `react` over the slices end (reactor/lib/core.cpp).
use arthas.Prelude.{
  ℕ, ◌+◌, ◌≤◌, ◌≡◌, refl, Bool, true, false, arith, some, List, [], ◌∷◌, ◌++◌, All, All-append,
  length, length-append, subst, sym, Bool-cases, inl, inr,
}
use arthas.Reactor.Types.{SingleData, SeqLog}
use arthas.Reactor.SeqLog.Table.{IsSized}
use arthas.Reactor.SeqLog.Placed.{IsPlaced}
use arthas.Reactor.Platform.{Platform, returned}
use arthas.Reactor.Binary.{Setup}
use arthas.Reactor.Addresses.{Multimap}
use arthas.Reactor.Addresses.Index.{IsIndex}
use arthas.Reactor.Collect.{TraceItem, address_seq_nums}
use arthas.Reactor.Collect.Numbers.{has, address_seq_nums-IsIndex}
use arthas.Reactor.Collect.Trace.{traced, at_address_of, collect_instruction-Collects}
use arthas.Reactor.React.{Progress, react_item, react_slice, react_slices}
use arthas.Reactor.React.Items.{
  HasSeqs, at_address-has, keys-IsSeq, IsGoing, IsReacted, react_item-behind,
}

-- The instructions of all slices.
abbrev pub instructions : List (List ℕ) → List ℕ
instructions [] = []
instructions (slice ∷ slices) = slice ++ instructions slices

All-map {ℓ κ} :
    {A : Type ℓ} (p q : A → Type κ) (xs : List A) → ((x : A) → p x → q x) → All p xs → All q xs
All-map p q [] f a = tt
All-map p q (x ∷ xs) f (h, a) = (f x h, All-map p q xs f a)

module _ (P : Platform) (setup : Setup) (empty_data : SingleData) where
  open P use {World}

  abbrev Reacted : ℕ → Progress World → Bool → Progress World → Type 0
  Reacted n p done p' = IsReacted P setup empty_data n p done p'

  Reacted-both :
      (n n' : ℕ) (p p1 p' : Progress World) (done : Bool)
      → Reacted n p false p1
      → Reacted n' p1 done p'
      → Reacted (n + n') p done p'
  Reacted-both n n' p p1 p' done a b = record {
    runs_ge = let x = a.runs_ge in let y = b.runs_ge in omega (arith, x, y);
    runs_le = let x = a.runs_le in let y = b.runs_le in omega (arith, x, y);
    success = b.success;
    going = b.going;
    kept = λ e k h. b.kept e k (a.kept refl k h);
  }

  module _ (fuel : ℕ) (enough : 3 ≤ fuel) (s : SeqLog) (small : HasSeqs s) (m : Multimap)
      (index : IsIndex (λ d. d.address) m s) (trace : List TraceItem) where
    abbrev Covered : Progress World → ℕ → Type 0
    Covered p i =
        (k : ℕ) → at_address_of s k (traced i trace) ≡ true → has p.collection.r_log k ≡ true

    react_item-Reacted :
        (i : ℕ) (p : Progress World)
        → IsGoing P setup empty_data p
        → (done : Bool) × (p' : Progress World) × (react_item P setup empty_data fuel m trace i p
            ≡ returned (done, p'))
          × Reacted 1 p done p'
          × (done ≡ false → Covered p' i)
    react_item-Reacted i p g =
        let (new, c, ran, r, member) =
          collect_instruction-Collects empty_data s m index i trace p.collection g.sized in
        let seqs =
          keys-IsSeq new r.numbered
            (λ k h. small k (at_address-has s k (traced i trace) (ground (arith, member k, h)))) in
        let (done, p', ends, reacted, log) =
          react_item-behind P setup empty_data fuel enough s small m index trace i p new c g ran r
            seqs in
        (done, p', ends, reacted, λ e k h. rw (log e) (ground (arith, r.known k, member k, h)))

    Reacted-none : (p : Progress World) → IsGoing P setup empty_data p → Reacted 0 p false p
    Reacted-none p g = record {
      runs_ge = omega arith;
      runs_le = omega arith;
      success = λ e. cc;
      going = λ _. g;
      kept = λ _ k h. h;
    }

    -- A loop that ended early.
    Reacted-won :
        (n n' : ℕ) (p p1 : Progress World) → n ≤ n' → Reacted n p true p1 → Reacted n' p true p1
    Reacted-won n n' p p1 le a = record {
      runs_ge = a.runs_ge;
      runs_le = let x = a.runs_le in omega (arith, x);
      success = a.success;
      going = λ e. cc;
      kept = λ e. cc;
    }

    react_slice-Reacted :
        (slice : List ℕ) (p : Progress World)
        → IsGoing P setup empty_data p
        → (done : Bool) × (p' : Progress World) × (react_slice P setup empty_data fuel m trace slice
              p
            ≡ returned (done, p'))
          × Reacted (length slice) p done p'
          × (done ≡ false → All (Covered p') slice)
    unfolding react_slice
    react_slice-Reacted [] p g = (false, p, refl, Reacted-none p g, λ _. tt)
    react_slice-Reacted (i ∷ slice) p g =
        let (done, p1, ran, a, covered) = react_item-Reacted i p g in
        elim (Bool-cases done) [
          | inl won ↦
              let a' : Reacted 1 p true p1 = subst (λ d. Reacted 1 p d p1) won a in
              (true, p1, rw (ran, won), Reacted-won 1 _ p p1 (omega arith) a', λ e. cc)
          | inr lost ↦
              let (done', p', rest, b, all) = react_slice-Reacted slice p1 (a.going lost) in
              let a' : Reacted 1 p false p1 = subst (λ d. Reacted 1 p d p1) lost a in
              let both = Reacted-both 1 (length slice) p p1 p' done' a' b in
              (
                done',
                p',
                rw (ran, lost) rest,
                subst (λ n. Reacted n p done' p') (omega arith) both,
                λ e. ((λ k h. b.kept e k (covered lost k h)), all e),
              )
        ]

    pub react_slices-Reacted :
        (slices : List (List ℕ)) (p : Progress World)
        → IsGoing P setup empty_data p
        → (done : Bool) × (p' : Progress World) × (react_slices P setup empty_data fuel m trace
              slices p
            ≡ returned (done, p'))
          × Reacted (length (instructions slices)) p done p'
          × (done ≡ false → All (Covered p') (instructions slices))
    unfolding react_slices
    react_slices-Reacted [] p g = (false, p, refl, Reacted-none p g, λ _. tt)
    react_slices-Reacted (slice ∷ slices) p g =
        let (done, p1, ran, a, covered) = react_slice-Reacted slice p g in
        let l = length-append slice (instructions slices) in
        elim (Bool-cases done) [
          | inl won ↦
              let a' : Reacted (length slice) p true p1 =
                subst (λ d. Reacted (length slice) p d p1) won a in
              (
                true,
                p1,
                rw (ran, won),
                Reacted-won (length slice) _ p p1 (omega (arith, l)) a',
                λ e. cc,
              )
          | inr lost ↦
              let (done', p', rest, b, all) = react_slices-Reacted slices p1 (a.going lost) in
              let a' : Reacted (length slice) p false p1 =
                subst (λ d. Reacted (length slice) p d p1) lost a in
              let both = Reacted-both (length slice) _ p p1 p' done' a' b in
              (
                done',
                p',
                rw (ran, lost) rest,
                subst (λ n. Reacted n p done' p') (sym l) both,
                λ e.
                    All-append (Covered p') slice (instructions slices)
                      (All-map (Covered p1) (Covered p') slice (λ i h k at. b.kept e k (h k at))
                        (covered lost))
                      (all e),
              )
        ]

  -- From a progress between two instructions (`IsGoing`: a machine that can be searched from, a
  -- table of collected numbers in shape, at most one number that waits, and it is below 2^31), on a
  -- table in shape where every node stands in the bucket of its key, no key occurs twice and every
  -- key is below 2^31, and with fuel for 3 rounds at least, the multimap by address is made and the
  -- loops of `react` over the slices return, whatever the runs of the program answer. They run the
  -- program at most 4 times for each instruction. If they report a success, `binary_success` is 1
  -- and the memory and the outside are the ones that a run without failure left. Otherwise the
  -- progress is again one between two instructions, every number collected before is still noted,
  -- and so is every version at an address that the trace has for an instruction of the slices.
  pub react_slices-IsReacted :
      (fuel : ℕ) (s : SeqLog) (trace : List TraceItem) (slices : List (List ℕ)) (p : Progress World)
      → 3 ≤ fuel
      → IsSized s
      → IsPlaced s
      → HasSeqs s
      → IsGoing P setup empty_data p
      → (m : Multimap) × (address_seq_nums s [] ≡ some m)
        × (done : Bool) × (p' : Progress World) × (react_slices P setup empty_data fuel m trace
              slices p
            ≡ returned (done, p'))
        × IsReacted P setup empty_data (length (instructions slices)) p done p'
        × (done ≡ false
            → All
                (λ i.
                  (k : ℕ)
                  → at_address_of s k (traced i trace) ≡ true
                  → has p'.collection.r_log k ≡ true)
                (instructions slices))
  react_slices-IsReacted fuel s trace slices p enough sized placed small g =
      let (m, made, index) = address_seq_nums-IsIndex s sized placed in
      let (done, p', ran, reacted, covered) =
        react_slices-Reacted fuel enough s small m index trace slices p g in
      (m, made, done, p', ran, reacted, covered)
