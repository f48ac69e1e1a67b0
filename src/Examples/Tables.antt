-- ===== src/Examples/Tables.antt =====
-- The tables, by sequence number and by transaction.
use arthas.Prelude.{
  ◌==◌, ◌≡◌, refl, ℤ, pos, ltb_ℤ, if◌then◌else◌, List, [], ◌∷◌, some, length, arith, ℕ,
}
use mathlib.Core.Option
use arthas.Reactor.Types.{SeqLog, TxLog}
use arthas.Reactor.SeqLog.{
  insert, lookup_modify, address_lookup, count_higher, find_highest_seq_num,
}
use arthas.Reactor.SeqLog.Table.{IsSized, view, insert-Writes, at_address, lookup_modify-Writes}
use arthas.Reactor.SeqLog.Placed.{IsPlaced, insert-IsPlaced}
use arthas.Reactor.SeqLog.Scans.{Enumerates, address_lookup-Enumerates, count_higher-Enumerates}
use arthas.Reactor.SeqLog.Highest.{IsHighest, find_highest_seq_num-IsHighest}
use arthas.Reactor.TxLog.{tx_insert}
use arthas.Reactor.TxLog.Table.{IsSizedTx, tx_versions, tx_insert-Adds}
use arthas.Examples.Data.{
  version_5, version_9, one_version, one_version-IsSized, one_version-IsPlaced, two_versions,
  two_versions-IsSized, two_versions-IsPlaced,
}

insert-Writes_example :
    (s' : SeqLog) × (insert one_version (pos 9) version_9 ≡ some s')
    × IsSized s'
    × (s'.size ≡ 93)
    × ((j : ℕ) → view s' j ≡ (if 9 == j then some version_9 else view one_version j))
insert-Writes_example = insert-Writes one_version one_version-IsSized 9 version_9

lookup_modify-Writes_example :
    (s' : SeqLog) × (lookup_modify two_versions (pos 9) 700 ≡ some s')
    × IsSized s'
    × (s'.size ≡ 93)
    × ((j : ℕ)
        → view s' j ≡ (
            if 9 == j
            then Option.map (at_address two_versions two_versions-IsSized 700) (view two_versions j)
            else view two_versions j))
lookup_modify-Writes_example = lookup_modify-Writes two_versions two_versions-IsSized 9 700

insert_9 : insert one_version (pos 9) version_9 ≡ some two_versions
unfolding insert
insert_9 = refl

insert-IsPlaced_example : IsPlaced two_versions
insert-IsPlaced_example =
    insert-IsPlaced one_version one_version-IsSized one_version-IsPlaced 9 version_9 insert_9

address_lookup-Enumerates_example :
    (ks : List ℤ) × (address_lookup two_versions 100 ≡ some (ks, length ks))
    × Enumerates two_versions (λ k d. 100 == d.address) ks
address_lookup-Enumerates_example =
    address_lookup-Enumerates two_versions two_versions-IsSized two_versions-IsPlaced 100

count_higher-Enumerates_example :
    (ks : List ℤ) × (count_higher two_versions (pos 6) ≡ some (length ks))
    × Enumerates two_versions (λ k d. ltb_ℤ (pos 6) k) ks
count_higher-Enumerates_example =
    count_higher-Enumerates two_versions two_versions-IsSized two_versions-IsPlaced (pos 6)

find_highest_seq_num-IsHighest_example :
    (h : ℤ) × (find_highest_seq_num two_versions ≡ some h) × IsHighest two_versions h
find_highest_seq_num-IsHighest_example =
    find_highest_seq_num-IsHighest two_versions two_versions-IsSized two_versions-IsPlaced

highest_of_two : find_highest_seq_num two_versions ≡ some (pos 9)
unfolding find_highest_seq_num
highest_of_two = refl

addressed_at_100 : address_lookup two_versions 100 ≡ some (pos 5 ∷ [], 1)
unfolding address_lookup
addressed_at_100 = refl

above_6 : count_higher two_versions (pos 6) ≡ some 1
unfolding count_higher
above_6 = refl

-- A table by transaction with one version.
abbrev one_transaction : TxLog
one_transaction = record {
  size = 2;
  list = [] ∷ (record { tx_id = pos 1; ordered_data = version_5 } ∷ []) ∷ [];
}

one_transaction-IsSizedTx : IsSizedTx one_transaction
one_transaction-IsSizedTx = record {
  not_empty = omega arith;
  fits_int = omega arith;
  slots = omega arith;
}

tx_insert-Adds_example :
    (t' : TxLog) × (tx_insert one_transaction (pos 1) version_9 ≡ some t')
    × IsSizedTx t'
    × (t'.size ≡ 2)
    × ((j : ℕ)
        → tx_versions t' j ≡ (
            if 1 == j
            then version_9 ∷ tx_versions one_transaction j
            else tx_versions one_transaction j))
tx_insert-Adds_example = tx_insert-Adds one_transaction one_transaction-IsSizedTx 1 version_9
