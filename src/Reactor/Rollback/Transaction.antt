-- ===== src/Reactor/Rollback/Transaction.antt =====
-- The reversion by transaction as one of sequence numbers (reactor/lib/rollback.c).
use arthas.Prelude.{
  ℕ, suc, ◌≡◌, refl, sym, ap, ◌∙◌, ℤ, pos, ◌&&◌, not, eq_ℤ, pred_ℤ, Option, none, some, List, [],
  ◌∷◌, ◌++◌, map, All, Bool-cases, Option-cases, inl, inr, if◌then◌else◌, ◌>>=◌, some_inj, subst,
}
use arthas.Memory.{Bytes}
use arthas.Reactor.Types.{SingleData, CheckpointLog, TxNode, TxLog, SeqLog}
use arthas.Reactor.SeqLog.{at, lookup}
use arthas.Reactor.SeqLog.Table.{IsSized, view, lookup-view}
use arthas.Reactor.TxLog.{tx_hash_code}
use arthas.Reactor.Rollback.{
  revert_by_sequence_number, revert_found, revert_by_sequence_number_array, is_asked,
  revert_tx_node, revert_bucket, revert_transactions, revert_by_transaction,
}

-- The versions in the buckets of the transactions of the numbers, bucket by bucket.
unfoldable pub in_buckets : SingleData → TxLog → SeqLog → List ℤ → Option (List SingleData)
unfolding lookup tx_hash_code at
in_buckets uninit t s [] = some []
in_buckets uninit t s (k ∷ ks) = do
  d ← lookup uninit s k
  p ← tx_hash_code t.size d.tx_id
  chain ← at t.list p
  rest ← in_buckets uninit t s ks
  some (map (λ n. n.ordered_data) chain ++ rest)

-- Those that were not asked for and have an older version.
unfoldable pub others : List ℤ → List SingleData → List SingleData
unfolding is_asked
others asked [] = []
others asked (d ∷ ds) =
    let rest = others asked ds in
    if not (eq_ℤ d.version (pos 0)) && not (is_asked d.sequence_number asked)
    then d ∷ rest
    else rest

abbrev pub numbers : List SingleData → List ℤ
numbers ds = map (λ d. d.sequence_number) ds

-- The table by sequence number has the version, at the same place among the older ones.
pub record IsFiled (s : SeqLog) (d : SingleData) : Type 0 where
  pub key : ℕ
  pub older : ℕ
  pub entry : SingleData
  pub tagged : d.sequence_number ≡ pos key
  pub newer : d.version ≡ pos (suc older)
  pub stored : view s key ≡ some entry
  pub entry_tagged : entry.sequence_number ≡ pos key
  pub entry_newer : entry.version ≡ pos (suc older)

others-append :
    (asked : List ℤ) (xs ys : List SingleData)
    → others asked (xs ++ ys) ≡ others asked xs ++ others asked ys
unfolding others
others-append asked [] ys = refl
others-append asked (d ∷ xs) ys =
    elim (Bool-cases (not (eq_ℤ d.version (pos 0)) && not (is_asked d.sequence_number asked))) [
      | inl e ↦ rw e (ap (λ l. d ∷ l) (others-append asked xs ys))
      | inr e ↦ rw e (others-append asked xs ys)
    ]

numbers-append : (xs ys : List SingleData) → numbers (xs ++ ys) ≡ numbers xs ++ numbers ys
numbers-append [] ys = refl
numbers-append (d ∷ xs) ys = ap (λ l. d.sequence_number ∷ l) (numbers-append xs ys)

All-split :
    (P : SingleData → Type 0) (xs ys : List SingleData) → All P (xs ++ ys) → All P xs × All P ys
All-split P [] ys a = (tt, a)
All-split P (x ∷ xs) ys (p, a) = let (b, c) = All-split P xs ys a in ((p, b), c)

module _ (uninit : SingleData) (s : SeqLog) (sized : IsSized s) (c : CheckpointLog) where
  abbrev revert_all : List ℤ → Bytes → Option Bytes
  revert_all ks m = revert_by_sequence_number_array uninit s ks c m

  revert_all-append :
      (xs ys : List ℤ) (m m' : Bytes)
      → revert_all xs m ≡ some m'
      → revert_all (xs ++ ys) m ≡ revert_all ys m'
  unfolding revert_by_sequence_number_array
  revert_all-append [] ys m m' ran = ap (revert_all ys) (some_inj ran)
  revert_all-append (k ∷ xs) ys m m' ran = elim (Option-cases (lookup uninit s k)) [
    | inl gone ↦ let h : none ≡ some m' = rw gone at ran in cc
    | inr (d, there) ↦ elim (Option-cases (revert_found d s c k m)) [
      | inl failed ↦ let h : none ≡ some m' = rw (there, failed) at ran in cc
      | inr (m1, done) ↦
          rw there (rw done (revert_all-append xs ys m1 m' (rw (there, done) at ran)))
    ]
  ]

  revert_all-append_none :
      (xs ys : List ℤ) (m : Bytes) → revert_all xs m ≡ none → revert_all (xs ++ ys) m ≡ none
  unfolding revert_by_sequence_number_array
  revert_all-append_none [] ys m ran = cc
  revert_all-append_none (k ∷ xs) ys m ran = elim (Option-cases (lookup uninit s k)) [
    | inl gone ↦ rw gone refl
    | inr (d, there) ↦ elim (Option-cases (revert_found d s c k m)) [
      | inl failed ↦ rw there (rw failed refl)
      | inr (m1, done) ↦
          rw there (rw done (revert_all-append_none xs ys m1 (rw (there, done) at ran)))
    ]
  ]

  lookup-filed :
      (d : SingleData) (f : IsFiled s d) → lookup uninit s d.sequence_number ≡ some f.entry
  lookup-filed d f = rw f.tagged (rw (lookup-view s sized uninit f.key) (rw f.stored refl))

  -- The version before the current one goes back, by either way.
  revert_found-filed :
      (d : SingleData) (f : IsFiled s d) (m : Bytes)
      → revert_found f.entry s c d.sequence_number m
        ≡ revert_by_sequence_number f.entry d.sequence_number (pred_ℤ d.version) s m
  unfolding revert_found
  revert_found-filed d f m = rw f.entry_tagged (rw f.entry_newer (rw f.newer refl))

  revert_bucket-all :
      (asked : List ℤ) (chain : List TxNode) (m : Bytes)
      → All (IsFiled s) (others asked (map (λ n. n.ordered_data) chain))
      → revert_bucket uninit s asked chain m
        ≡ revert_all (numbers (others asked (map (λ n. n.ordered_data) chain))) m
  unfolding revert_bucket revert_tx_node others revert_by_sequence_number_array
  revert_bucket-all asked [] m filed = refl
  revert_bucket-all asked (n ∷ chain) m filed =
      let d = n.ordered_data in
      elim (Bool-cases (not (eq_ℤ d.version (pos 0)) && not (is_asked d.sequence_number asked))) [
        | inr e ↦ rw e (revert_bucket-all asked chain m (rw e at filed))
        | inl e ↦
            let (f, rest) : IsFiled s d
                × All (IsFiled s) (others asked (map (λ n'. n'.ordered_data) chain)) =
              rw e at filed in
            let found = lookup-filed d f in
            let same = revert_found-filed d f m in
            elim (Option-cases
              (revert_by_sequence_number f.entry d.sequence_number (pred_ℤ d.version) s m)) [
                | inl failed ↦ rw e (rw found (rw same (rw failed refl)))
                | inr (m', done) ↦
                    rw e (rw found (rw same (rw done (revert_bucket-all asked chain m' rest))))
              ]
      ]

  no_buckets :
      (t : TxLog) (ds : List SingleData) → in_buckets uninit t s [] ≡ some ds → some [] ≡ some ds
  unfolding in_buckets
  no_buckets t ds there = there

  none_left : (asked : List ℤ) (m : Bytes) → some m ≡ revert_all (numbers (others asked [])) m
  unfolding others revert_by_sequence_number_array
  none_left asked m = refl

  -- The first bucket, and the rest.
  in_buckets-cons :
      (t : TxLog) (k : ℤ) (ks : List ℤ) (ds : List SingleData)
      → in_buckets uninit t s (k ∷ ks) ≡ some ds
      → (d : SingleData) × (p : ℤ) × (chain : List TxNode) × (rest : List SingleData) × (lookup
            uninit s k
          ≡ some d)
        × (tx_hash_code t.size d.tx_id ≡ some p)
        × (at t.list p ≡ some chain)
        × (in_buckets uninit t s ks ≡ some rest)
        × (map (λ n. n.ordered_data) chain ++ rest ≡ ds)
  unfolding in_buckets
  in_buckets-cons t k ks ds there = elim (Option-cases (lookup uninit s k)) [
    | inl gone ↦ let h : none ≡ some ds = rw gone at there in cc
    | inr (d, a) ↦ elim (Option-cases (tx_hash_code t.size d.tx_id)) [
      | inl gone ↦ let h : none ≡ some ds = rw (a, gone) at there in cc
      | inr (p, b) ↦ elim (Option-cases (at t.list p)) [
        | inl gone ↦ let h : none ≡ some ds = rw (a, b, gone) at there in cc
        | inr (chain, e) ↦ elim (Option-cases (in_buckets uninit t s ks)) [
          | inl gone ↦ let h : none ≡ some ds = rw (a, b, e, gone) at there in cc
          | inr (rest, f) ↦ (d, p, chain, rest, a, b, e, f, some_inj (rw (a, b, e, f) at there))
        ]
      ]
    ]
  ]

  revert_transactions-all :
      (t : TxLog) (asked ks : List ℤ) (ds : List SingleData) (m : Bytes)
      → in_buckets uninit t s ks ≡ some ds
      → All (IsFiled s) (others asked ds)
      → revert_transactions uninit t s asked ks m ≡ revert_all (numbers (others asked ds)) m
  unfolding revert_transactions
  revert_transactions-all t asked [] ds m there filed =
      subst (λ l. some m ≡ revert_all (numbers (others asked l)) m)
        (some_inj (no_buckets t ds there)) (none_left asked m)
  revert_transactions-all t asked (k ∷ ks) ds m there filed =
      let (d, p, chain, rest, a, b, e, f, split) = in_buckets-cons t k ks ds there in
      let first = map (λ n. n.ordered_data) chain in
      let parts = ap (others asked) (sym split) ∙ others-append asked first rest in
      let (here, behind) =
        All-split (IsFiled s) (others asked first) (others asked rest)
          (subst (All (IsFiled s)) parts filed) in
      let listed = ap numbers parts ∙ numbers-append (others asked first) (others asked rest) in
      let ran = revert_bucket-all asked chain m here in
      elim (Option-cases (revert_all (numbers (others asked first)) m)) [
        | inl failed ↦ rw a (
            rw b (
              rw e (
                rw (ran ∙ failed) (
                  sym (
                    ap (λ l. revert_all l m) listed
                    ∙ revert_all-append_none (numbers (others asked first))
                        (numbers (others asked rest)) m failed)))))
        | inr (m', done) ↦ rw a (
            rw b (
              rw e (
                rw (ran ∙ done) (
                  revert_transactions-all t asked ks rest m' f behind
                  ∙ sym (
                      ap (λ l. revert_all l m) listed
                      ∙ revert_all-append (numbers (others asked first))
                          (numbers (others asked rest)) m m' done)))))
      ]

  -- On a table by sequence number in shape (`IsSized`), when the transactions of the numbers asked
  -- for have buckets (`in_buckets`), and each version in these buckets that was not asked for and
  -- has an older one is filed under its number (`IsFiled`), `revert_by_transaction` does what
  -- `revert_by_sequence_number_array` does for exactly the numbers of these versions, in the order
  -- of the buckets, whatever transactions they belong to.
  pub revert_by_transaction-array :
      (t : TxLog) (ks : List ℤ) (ds : List SingleData) (m : Bytes)
      → in_buckets uninit t s ks ≡ some ds
      → All (IsFiled s) (others ks ds)
      → revert_by_transaction uninit t ks s m
        ≡ revert_by_sequence_number_array uninit s (numbers (others ks ds)) c m
  unfolding revert_by_transaction
  revert_by_transaction-array t ks ds m there filed =
      revert_transactions-all t ks ks ds m there filed
