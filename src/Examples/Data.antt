-- ===== src/Examples/Data.antt =====
-- Two versions of two variables, and the table that holds them.
use arthas.Prelude.{
  ℕ, zero, suc, ◌%◌, ◌≡◌, refl, ◌∙◌, ◌⊎◌, inl, inr, ◌==◌, if◌then◌else◌, Bool-cases, pos, none,
  some, [], ◌∷◌, arith, get_elem?, replicate, set, some_inj, sym, subst,
}
use arthas.Reactor.Types.{SingleData, Row, SeqLog}
use arthas.Reactor.SeqLog.{insert, find}
use arthas.Reactor.SeqLog.Table.{IsSized, view, view-home, insert-Writes, bucket-defined}
use arthas.Reactor.SeqLog.Placed.{IsPlaced, RowPlaced, insert-IsPlaced}

abbrev pub version_5 : SingleData
version_5 = record {
  address = 100;
  offset = 100;
  content = 1000;
  size = 4;
  sequence_number = pos 5;
  version = pos 1;
  data_type = pos 0;
  old_data = 2000 ∷ 0 ∷ 0 ∷ [];
  old_size = 4 ∷ 0 ∷ 0 ∷ [];
  old_checkpoint_entry = 0;
  new_checkpoint_entry = 0;
  sorted_pmem_address = 500;
  tx_id = pos 1;
}

abbrev pub version_9 : SingleData
version_9 = record version_5 {
  address = 200;
  offset = 200;
  content = 1100;
  sequence_number = pos 9;
  version = pos 2;
  old_data = 2100 ∷ 2200 ∷ 0 ∷ [];
  old_size = 4 ∷ 3 ∷ 0 ∷ [];
  sorted_pmem_address = 600;
}

abbrev pub empty_log : SeqLog
empty_log = record { size = 93; list = replicate 93 [] }

abbrev pub one_version : SeqLog
one_version = record empty_log {
  list = set empty_log.list 5 (record { sequence_number = pos 5; ordered_data = version_5 } ∷ []);
}

abbrev pub two_versions : SeqLog
two_versions = record empty_log {
  list = set one_version.list 9 (record { sequence_number = pos 9; ordered_data = version_9 } ∷ []);
}

pub empty_log-IsSized : IsSized empty_log
empty_log-IsSized = record {
  not_empty = omega arith;
  fits_int = omega arith;
  slots = omega arith;
  probed = omega arith;
}

pub one_version-IsSized : IsSized one_version
one_version-IsSized = record {
  not_empty = omega arith;
  fits_int = omega arith;
  slots = omega arith;
  probed = omega arith;
}

pub two_versions-IsSized : IsSized two_versions
two_versions-IsSized = record {
  not_empty = omega arith;
  fits_int = omega arith;
  slots = omega arith;
  probed = omega arith;
}

replicate-nil : (n i : ℕ) (r : Row) → get_elem? (replicate n []) i ≡ some r → r ≡ []
replicate-nil zero i r e = cc
replicate-nil (suc n) zero r e = sym (some_inj e)
replicate-nil (suc n) (suc i) r e = replicate-nil n i r e

pub empty_log-IsPlaced : IsPlaced empty_log
empty_log-IsPlaced = record {
  row = λ i r small e. subst (RowPlaced 93 i) (sym (replicate-nil 93 i r e)) (tt, tt);
}

insert_5 : insert empty_log (pos 5) version_5 ≡ some one_version
unfolding insert
insert_5 = refl

pub insert_9 : insert one_version (pos 9) version_9 ≡ some two_versions
unfolding insert
insert_9 = refl

pub one_version-IsPlaced : IsPlaced one_version
one_version-IsPlaced =
    insert-IsPlaced empty_log empty_log-IsSized empty_log-IsPlaced 5 version_5 insert_5

pub two_versions-IsPlaced : IsPlaced two_versions
two_versions-IsPlaced =
    insert-IsPlaced one_version one_version-IsSized one_version-IsPlaced 9 version_9 insert_9

view-empty : (k : ℕ) → view empty_log k ≡ none
unfolding find
view-empty k =
    let (row, e) = bucket-defined empty_log empty_log-IsSized k in
    rw (view-home empty_log empty_log-IsSized k, e) (rw (replicate-nil 93 (k % 93) row e))

pub view-one : (k : ℕ) → view one_version k ≡ (if 5 == k then some version_5 else none)
view-one k =
    let (s', e, _, _, reads) = insert-Writes empty_log empty_log-IsSized 5 version_5 in
    let same : s' ≡ one_version = some_inj (sym e ∙ insert_5) in
    rw (← same) (rw (← view-empty k) (reads k))

pub view-two :
    (k : ℕ)
    → view two_versions k
      ≡ (if 9 == k then some version_9 else (if 5 == k then some version_5 else none))
view-two k =
    let (s', e, _, _, reads) = insert-Writes one_version one_version-IsSized 9 version_9 in
    let same : s' ≡ two_versions = some_inj (sym e ∙ insert_9) in
    subst
      (λ t.
        view t k ≡ (if 9 == k then some version_9 else (if 5 == k then some version_5 else none)))
      same (rw (← view-one k) (reads k))

pub two_versions-view :
    (k : ℕ) (d : SingleData) → view two_versions k ≡ some d → (d ≡ version_9) ⊎ (d ≡ version_5)
two_versions-view k d e = elim (Bool-cases (9 == k)) [
  | inl nine ↦ inl (some_inj (sym e ∙ view-two k ∙ rw nine))
  | inr not_nine ↦ elim (Bool-cases (5 == k)) [
    | inl five ↦ inr (some_inj (sym e ∙ view-two k ∙ rw (not_nine, five)))
    | inr not_five ↦ absurd (empty (sym e ∙ view-two k ∙ rw (not_nine, not_five)))
  ]
]
  where
    empty : ¬ (some d ≡ none)
    empty h = cc
