-- ===== src/Analyzer/Slices.antt =====
-- Slices: lists of instructions that depend on each other (analyzer/lib/Slicing/Slice.cpp and its
-- header). An instruction is a number; a slice is named by its identifier. Printing is left out.
use arthas.Prelude.{
  ℕ, ◌+◌, ℤ, pos, ◌-ℤ◌, ltb_ℤ, eq_ℤ, is_negative, Bool, true, false, ◌&&◌, ◌||◌, ◌==◌, not, Option,
  none, some, List, [], ◌∷◌, ◌++◌, if◌then◌else◌,
}

pub data SlicePersistence : Type 0 where
  na persistent volatile mixed : SlicePersistence

pub data SliceDirection : Type 0 where
  backward forward full : SliceDirection

pub data SliceDependence : Type 0 where
  unknown register_def_use memory_dependence control_dependence interfere_dependence :
      SliceDependence

-- `dep_vals` are instructions with their distances.
pub record Slice : Type 0 where
  pub id : ℕ
  pub root : ℕ
  pub direction : SliceDirection
  pub persistence : SlicePersistence
  pub dependence : SliceDependence
  pub dep_vals : List (ℕ × ℤ)

-- The constructor: the root depends on itself.
abbrev pub new_slice : ℕ → ℕ → SliceDirection → SlicePersistence → SliceDependence → Slice
new_slice id root direction persistence dependence = record {
  id = id;
  root = root;
  direction = direction;
  persistence = persistence;
  dependence = dependence;
  dep_vals = (root, pos 0) ∷ [];
}

abbrev pub add_value : ℕ → Slice → Slice
add_value inst s = record s { dep_vals = s.dep_vals ++ (inst, pos 0) ∷ [] }

-- The loop of `fork` over the values of the slice; the root is passed over.
unfoldable pub copy_values : ℕ → List (ℕ × ℤ) → Slice → Slice
copy_values root [] copy = copy
copy_values root ((dep, distance) ∷ vals) copy =
    copy_values root vals (if dep == root then copy else add_value dep copy)

unfoldable pub fork : Slice → Slice
unfolding copy_values
fork s =
    copy_values s.root s.dep_vals (new_slice s.id s.root s.direction s.persistence s.dependence)

-- Whether a value of the slice is persistent, and whether one is not.
unfoldable pub has_persistent : (ℕ → Bool) → List (ℕ × ℤ) → Bool
has_persistent persist_vars [] = false
has_persistent persist_vars ((val, distance) ∷ vals) =
    persist_vars val || has_persistent persist_vars vals

unfoldable pub has_volatile : (ℕ → Bool) → List (ℕ × ℤ) → Bool
has_volatile persist_vars [] = false
has_volatile persist_vars ((val, distance) ∷ vals) =
    not (persist_vars val) || has_volatile persist_vars vals

-- The three counters.
pub record PersistenceCounts : Type 0 where
  pub volatile_count : ℕ
  pub persistent_count : ℕ
  pub mixed_count : ℕ

unfoldable pub set_persistence : (ℕ → Bool) → Slice → PersistenceCounts → Slice × PersistenceCounts
unfolding has_persistent has_volatile
set_persistence persist_vars s c =
    let vol = has_volatile persist_vars s.dep_vals in
    let persistent_there = has_persistent persist_vars s.dep_vals in
    if vol && persistent_there
    then (record s { persistence = mixed }, record c { mixed_count = c.mixed_count + 1 })
    else (if vol
        then (
          record s { persistence = volatile },
          record c { volatile_count = c.volatile_count + 1 },
        )
        else (if persistent_there
            then (
              record s { persistence = persistent },
              record c { persistent_count = c.persistent_count + 1 },
            )
            else (s, c)))

-- `operator()` of the two comparators, on distances.
unfoldable pub closer : ℤ → ℤ → Bool
closer dist1 dist2 =
    if eq_ℤ dist1 (pos 0) && eq_ℤ dist2 (pos 0)
    then false
    else (if is_negative dist1
        then (if ltb_ℤ (pos 0) dist2 then true else ltb_ℤ (pos 0 -ℤ dist1) (pos 0 -ℤ dist2))
        else (if is_negative dist2 then false else ltb_ℤ dist1 dist2))

-- `Slices`: the map from identifiers keeps the first slice of each, as the list does.
unfoldable pub get_slice : ℕ → List Slice → Option Slice
get_slice id [] = none
get_slice id (s ∷ slices) = let rest = get_slice id slices in if s.id == id then some s else rest

abbrev pub is_there : Option Slice → Bool
is_there none = false
is_there (some s) = true

unfoldable pub has_slice : ℕ → List Slice → Bool
unfolding get_slice
has_slice id slices = is_there (get_slice id slices)

abbrev pub add_slice : Slice → List Slice → List Slice
add_slice s slices = slices ++ s ∷ []

-- A change of the slice in place.
unfoldable pub change_slice : ℕ → (Slice → Slice) → List Slice → List Slice
change_slice id f [] = []
change_slice id f (s ∷ slices) =
    let rest = change_slice id f slices in if s.id == id then f s ∷ slices else s ∷ rest
