-- ===== src/Reactor/Types.antt =====
-- The structures of reactor/include/checkpoint.h. A pointer is an address, an `int` is an integer,
-- an array is the list of its slots, and a chain of nodes is a list, head first.
use arthas.Prelude.{ℕ, ℤ, List}

-- One version of one checkpointed variable, keyed by its sequence number.
pub record SingleData : Type 0 where
  pub address : ℕ
  pub offset : ℕ
  pub content : ℕ
  pub size : ℕ
  pub sequence_number : ℤ
  pub version : ℤ
  pub data_type : ℤ
  pub old_data : List ℕ
  pub old_size : List ℕ
  pub old_checkpoint_entry : ℕ
  pub new_checkpoint_entry : ℕ
  pub sorted_pmem_address : ℕ
  pub tx_id : ℤ

-- All versions of one variable, as the target program logged them.
pub record CheckpointData : Type 0 where
  pub address : ℕ
  pub offset : ℕ
  pub content : List ℕ
  pub size : List ℕ
  pub version : ℤ
  pub data_type : ℤ
  pub sequence_number : List ℤ
  pub old_checkpoint_entry : ℕ
  pub new_checkpoint_entry : ℕ
  pub free_flag : ℤ
  pub tx_id : List ℤ

pub record Node : Type 0 where
  pub offset : ℕ
  pub c_data : CheckpointData

pub record CheckpointLog : Type 0 where
  pub size : ℕ
  pub variable_count : ℤ
  pub list : List (List Node)

pub record TxNode : Type 0 where
  pub tx_id : ℤ
  pub ordered_data : SingleData

pub record TxLog : Type 0 where
  pub size : ℕ
  pub list : List (List TxNode)

pub record SeqNode : Type 0 where
  pub sequence_number : ℤ
  pub ordered_data : SingleData

abbrev pub Row : Type 0
Row = List SeqNode

pub record SeqLog : Type 0 where
  pub size : ℕ
  pub list : List Row

-- `#define MAX_VERSIONS 3`
abbrev pub max_versions : ℕ
max_versions = 3
