-- ===== src/Reactor/Reexecute/Redo.antt =====
-- The table after `redo_pmem_addresses` (reactor/lib/rollback.c).
use arthas.Prelude.{
  ℕ, zero, suc, ◌≤◌, ◌<◌, ◌≡◌, refl, ℤ, pos, Option, none, some, List, [], ◌∷◌, arith, get_elem?,
  length, to_int-pos, ◌>>=◌, ◌∙◌, ap, sym, some_inj,
}
use mathlib.Core.Option
use arthas.Reactor.Types.{SingleData, Row, SeqLog}
use arthas.Reactor.SeqLog.{find}
use arthas.Reactor.SeqLog.Table.{IsSized, home, view, view-home}
use arthas.Reactor.SeqLog.Placed.{seqs, RowPlaced, IsPlaced}
use arthas.Reactor.Reexecute.{change_slots, change_all, in_pool, update_addresses}

module _ {ℓ} {A : Type ℓ} (f : A → A) where
  -- The array with its first `n` slots changed.
  unfoldable pub changed : ℕ → List A → List A
  changed zero l = l
  changed (suc n) [] = []
  changed (suc n) (x ∷ l) = f x ∷ changed n l

  pub change_slots-changed :
      (n : ℕ) (l : List A) → n ≤ length l → change_slots n f l ≡ some (changed n l)
  unfolding change_slots changed
  change_slots-changed zero l h = refl
  change_slots-changed (suc n) [] h = absurd (omega arith)
  change_slots-changed (suc n) (x ∷ l) h = rw (change_slots-changed n l (omega arith))

  length-changed : (n : ℕ) (l : List A) → length (changed n l) ≡ length l
  unfolding changed
  length-changed zero l = refl
  length-changed (suc n) [] = refl
  length-changed (suc n) (x ∷ l) = ap suc (length-changed n l)

  get_elem?-changed :
      (n : ℕ) (l : List A) (i : ℕ)
      → i < n
      → get_elem? (changed n l) i ≡ Option.map f (get_elem? l i)
  unfolding changed
  get_elem?-changed zero l i h = elim h [ ]
  get_elem?-changed (suc n) [] i h = refl
  get_elem?-changed (suc n) (x ∷ l) zero h = refl
  get_elem?-changed (suc n) (x ∷ l) (suc i) h = get_elem?-changed n l i (omega arith)

pub find-change_all :
    (f : SingleData → SingleData) (k : ℤ) (row : Row)
    → find k (change_all f row) ≡ Option.map f (find k row)
unfolding find
find-change_all f k [] = refl
find-change_all f k (n ∷ row) = ground (arith, find-change_all f k row)

pub seqs-change_all : (f : SingleData → SingleData) (row : Row) → seqs (change_all f row) ≡ seqs row
seqs-change_all f [] = refl
seqs-change_all f (n ∷ row) = ap (λ t. n.sequence_number ∷ t) (seqs-change_all f row)

-- A change of every version in every bucket, chain by chain.
module _ (f : SingleData → SingleData) (g : Row → Row)
    (finds : (k : ℤ) (row : Row) → find k (g row) ≡ Option.map f (find k row))
    (keeps : (row : Row) → seqs (g row) ≡ seqs row) (s : SeqLog) (sized : IsSized s) where
  abbrev pub with_all : SeqLog
  with_all = record s { list = changed g s.size s.list }

  pub with_all-IsSized : IsSized with_all
  with_all-IsSized = record {
    not_empty = sized.not_empty;
    fits_int = sized.fits_int;
    slots = rw length-changed sized.slots;
    probed = rw length-changed sized.probed;
  }

  pub change_slots-with_all : change_slots s.size g s.list ≡ some with_all.list
  change_slots-with_all = change_slots-changed g s.size s.list sized.slots

  pub view-with_all : (k : ℕ) → view with_all k ≡ Option.map f (view s k)
  view-with_all k =
      rw
        (
          view-home with_all with_all-IsSized k,
          view-home s sized k,
          get_elem?-changed g s.size s.list (home s k) (omega (arith, sized.not_empty)),
        )
        (go (get_elem? s.list (home s k)))
    where
      go : (o : Option Row) → (Option.map g o >>= find (pos k)) ≡ Option.map f (o >>= find (pos k))
      go none = refl
      go (some row) = finds (pos k) row

  pub with_all-IsPlaced : IsPlaced s → IsPlaced with_all
  with_all-IsPlaced placed = record {
    row = λ i r small e.
        go i r small (get_elem? s.list i) refl
          (sym (get_elem?-changed g s.size s.list i small) ∙ e);
  }
    where
      go :
          (i : ℕ) (r : Row)
          → i < s.size
          → (o : Option Row) → get_elem? s.list i ≡ o
          → Option.map g o ≡ some r
          → RowPlaced s.size i r
      go i r small none e h = cc
      go i r small (some q) e h = rw (← some_inj h) (rw (keeps q) (placed.row i q small e))

-- The table after its versions moved to the mapping at `pop`.
pub record IsMoved (pop : ℕ) (s s' : SeqLog) : Type 0 where
  pub sized : IsSized s'
  pub placed : IsPlaced s → IsPlaced s'
  pub reads : (k : ℕ) → view s' k ≡ Option.map (in_pool pop) (view s k)

pub update_addresses-IsMoved :
    (pop : ℕ) (s : SeqLog)
    → IsSized s
    → (s' : SeqLog) × (update_addresses pop s ≡ some s') × IsMoved pop s s'
unfolding update_addresses
update_addresses-IsMoved pop s sized =
    let f = in_pool pop in
    let g = change_all f in
    let finds = find-change_all f in
    let keeps = seqs-change_all f in
    (
      with_all f g finds keeps s sized,
      rw (to_int-pos s.size sized.fits_int) (rw (change_slots-with_all f g finds keeps s sized)),
      record {
        sized = with_all-IsSized f g finds keeps s sized;
        placed = with_all-IsPlaced f g finds keeps s sized;
        reads = view-with_all f g finds keeps s sized;
      },
    )
