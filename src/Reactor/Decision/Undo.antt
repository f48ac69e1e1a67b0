-- ===== src/Reactor/Decision/Undo.antt =====
-- The reversion of an attempt in the decided order, and its undo (reactor/lib/rollback.c,
-- reactor/lib/core.cpp).
use arthas.Prelude.{
  ℕ, suc, [], ◌∷◌, ◌≤◌, ◌≡◌, some, List, ◌++◌, take, drop, All, length, ℤ, ap, ◌∙◌,
  take-append_length, refl,
}
use mathlib.Core.List.{reverse, reverse-append, reverse-reverse}
use arthas.Memory.{Bytes}
use arthas.Reactor.Types.{SingleData, CheckpointLog, SeqLog}
use arthas.Reactor.SeqLog.Table.{IsSized}
use arthas.Reactor.Rollback.{revert_by_sequence_number_array, undo_by_sequence_number_array}
use arthas.Reactor.Rollback.RoundTrip.{
  Item, keys, IsRevertible, BuffersApart, SameOutside, revert-undo,
}
use arthas.Reactor.Decision.{decision_func_sequence_array, IsSeq, IsAscending}
use arthas.Reactor.Decision.Order.{decision_func-reverse}

length-snoc : (xs : List ℤ) (x : ℤ) → length (xs ++ x ∷ []) ≡ suc (length xs)
length-snoc [] x = refl
length-snoc (y ∷ ys) x = ap suc (length-snoc ys x)

length-reverse : (xs : List ℤ) → length (reverse xs) ≡ length xs
length-reverse [] = refl
length-reverse (x ∷ xs) =
    rw (reverse-append (x ∷ []) xs) (length-snoc (reverse xs) x ∙ ap suc (length-reverse xs))

module _ (uninit : SingleData) (s : SeqLog) (sized : IsSized s) where
  -- In a table in shape (`IsSized`), for rising sequence numbers below 2^31 of versions that it
  -- holds and that each have an older one no longer than themselves and a buffer outside their own
  -- place, no two buffers overlapping, `decision_func_sequence_array` into an array with room for
  -- them and the reversion of what it decides run to the end, and so does the undo of the same
  -- numbers, which restores every byte outside the buffers.
  pub decision-revert-undo :
      (c : CheckpointLog) (items : List Item) (new : List ℤ)
      → All (IsRevertible s) items
      → BuffersApart items
      → All IsSeq (reverse (keys items))
      → IsAscending (reverse (keys items))
      → length (reverse (keys items)) ≤ length new
      → (m : Bytes)
      → (decided : List ℤ) × (total : ℕ) × (decision_func_sequence_array
            (reverse (keys items))
            new
            0
          ≡ some (decided, total))
        × (m1 : Bytes) × (revert_by_sequence_number_array uninit s (take total decided) c m
            ≡ some m1)
        × (m2 : Bytes) × (undo_by_sequence_number_array uninit s (reverse (keys items)) m1
            ≡ some m2)
        × SameOutside items m2 m
  decision-revert-undo c items new r apart seqs rising fits m =
      let part = reverse (keys items) in
      let rest = drop (length part) new in
      let (m1, ran, m2, undone, same) = revert-undo uninit s sized c items r apart m in
      let turned : reverse part ≡ keys items = reverse-reverse (keys items) in
      (
        keys items ++ rest,
        length (keys items),
        decision_func-reverse part new seqs rising fits
            ∙ ap (λ t. some (t ++ rest, length part)) turned
            ∙ ap (λ n. some (keys items ++ rest, n)) (length-reverse (keys items)),
        m1,
        rw take-append_length ran,
        m2,
        undone,
        same,
      )
