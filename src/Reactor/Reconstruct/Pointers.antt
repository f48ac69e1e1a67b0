-- ===== src/Reactor/Reconstruct/Pointers.antt =====
-- The pointers that `reconstruct_checkpoint` (reactor/lib/checkpoint.c) moves.
use arthas.Prelude.{
  ℕ, zero, suc, ◌+◌, ◌-◌, ◌%◌, ◌^◌, ◌≤◌, ◌<◌, ◌≡◌, refl, ℤ, pos, negsuc, ltb_ℤ, true, false, some,
  List, [], ◌∷◌, length, arith, ap, sym, ◌∙◌, ◌==◌, if◌then◌else◌,
}
use arthas.Reactor.Types.{CheckpointData}
use arthas.Reactor.Reexecute.{change_slots}
use arthas.Reactor.Reexecute.Redo.{changed, change_slots-changed}
use arthas.Reactor.Reconstruct.{rebase, rebase_link, data_rounds}

-- A pointer that is as far from the start of the new mapping as it was from that of the old one.
abbrev pub moved_pointer : ℕ → ℕ → ℕ → ℕ
moved_pointer old pop p = (p + 2 ^ 64 - old + pop) % 2 ^ 64

-- The data pointers from place `j` on: those of the versions up to the current one are moved.
unfoldable pub moved_data : ℕ → ℕ → ℤ → ℕ → List ℕ → List ℕ
moved_data old pop version j [] = []
moved_data old pop version j (p ∷ l) =
    (if ltb_ℤ version (pos j) then p else moved_pointer old pop p)
    ∷ moved_data old pop version (suc j) l

abbrev pub moved_link : ℕ → ℕ → ℕ → ℕ
moved_link old pop p = if p == 0 then 0 else moved_pointer old pop p

rebase-moved_pointer : (old pop p : ℕ) → old < 2 ^ 64 → rebase old pop p ≡ moved_pointer old pop p
unfolding rebase
rebase-moved_pointer old pop p h = omega (arith, h)

pub rebase_link-moved_link :
    (old pop p : ℕ) → old < 2 ^ 64 → rebase_link old pop p ≡ moved_link old pop p
rebase_link-moved_link old pop p h =
    ap (λ q. if p == 0 then 0 else q) (rebase-moved_pointer old pop p h)

moved_data-none :
    (old pop : ℕ) (version : ℤ) (j : ℕ) (l : List ℕ)
    → ((i : ℕ) → j ≤ i → ltb_ℤ version (pos i) ≡ true)
    → moved_data old pop version j l ≡ l
unfolding moved_data
moved_data-none old pop version j [] h = refl
moved_data-none old pop version j (p ∷ l) h =
    rw (h j (omega arith))
      (ap (λ t. p ∷ t) (moved_data-none old pop version (suc j) l λ i le. h i (omega (arith, le))))

changed-moved_data :
    (old pop v n j : ℕ) (l : List ℕ)
    → old < 2 ^ 64
    → suc v ≡ n + j
    → changed (rebase old pop) n l ≡ moved_data old pop (pos v) j l
unfolding moved_data changed
changed-moved_data old pop v zero j l small count =
    sym (moved_data-none old pop (pos v) j l λ i le. ground (arith, count, le))
changed-moved_data old pop v (suc n) j [] small count = refl
changed-moved_data old pop v (suc n) j (p ∷ l) small count =
    let e : ltb_ℤ (pos v) (pos j) ≡ false = ground (arith, count) in
    rw e (
      ap (λ q. q ∷ changed (rebase old pop) n l) (rebase-moved_pointer old pop p small)
      ∙ ap (λ t. moved_pointer old pop p ∷ t)
          (changed-moved_data old pop v n (suc j) l small (omega (arith, count))))

-- The loop over the versions of a node moves their data pointers.
pub change_slots-moved_data :
    (old pop : ℕ) (c : CheckpointData)
    → old < 2 ^ 64
    → ltb_ℤ c.version (pos (length c.content)) ≡ true
    → change_slots (data_rounds c) (rebase old pop) c.content
      ≡ some (moved_data old pop c.version 0 c.content)
unfolding change_slots
change_slots-moved_data old pop c small fits = go c.version fits
  where
    go :
        (version : ℤ)
        → ltb_ℤ version (pos (length c.content)) ≡ true
        → change_slots (elim version [ pos v ↦ suc v | _ ↦ 0 ]) (rebase old pop) c.content
          ≡ some (moved_data old pop version 0 c.content)
    go (pos v) h =
        change_slots-changed (rebase old pop) (suc v) c.content (ground (arith, h))
        ∙ ap some (changed-moved_data old pop v (suc v) 0 c.content small (omega arith))
    go (negsuc v) h =
        ap some (sym (moved_data-none old pop (negsuc v) 0 c.content λ i le. ground arith))
