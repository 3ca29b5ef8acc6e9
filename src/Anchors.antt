-- ===== src/Anchors.antt =====
-- anchors.rs of items/01-private-bond-replay/src/replay/src: the anchor set that an indexer serves.
pub mod Indexed
pub mod Arrangement
pub mod Counts
pub mod Query
pub mod Parse
pub mod Ordered
use graph_privacy_showcase_d.Common.{ℕ, Bool, List}
use graph_privacy_showcase_d.Common.Text.{Text}

abbrev pub page_limit : ℕ
page_limit = 1000

pub data BlockPinValue : Type 0 where
  hash : Text → BlockPinValue
  number : ℕ → BlockPinValue

pub record MetaBlock : Type 0 where
  pub number : ℕ
  pub hash : Text

pub record Meta : Type 0 where
  pub block : MetaBlock
  pub deployment : Text
  pub has_indexing_errors : Bool

pub record BondEntity : Type 0 where
  pub id : Text
  pub address : Text
  pub bond_id : Text
  pub leaf_count : Text
  pub nullifier_count : Text

pub record CommitmentEntity : Type 0 where
  pub id : Text
  pub leaf_index : Text
  pub value : Text
  pub source_function : Text
  pub tx_hash : Text
  pub block_number : Text
  pub timestamp : Text
  pub caller : Text

pub record NullifierEntity : Type 0 where
  pub id : Text
  pub value : Text
  pub source_function : Text
  pub tx_hash : Text
  pub block_number : Text
  pub timestamp : Text
  pub caller : Text

pub record RootClaimedEntity : Type 0 where
  pub id : Text
  pub root : Text
  pub source_function : Text
  pub tx_hash : Text
  pub block_number : Text
  pub timestamp : Text

pub record LifecycleCallEntity : Type 0 where
  pub id : Text
  pub function : Text
  pub leaf_count_after : Text
  pub proof_hash : Text
  pub proof_length : Text
  pub tx_hash : Text
  pub block_number : Text
  pub timestamp : Text
  pub caller : Text

pub record AnchorSet : Type 0 where
  pub meta : Meta
  pub bonds : List BondEntity
  pub commitments : List CommitmentEntity
  pub nullifiers : List NullifierEntity
  pub roots_claimed : List RootClaimedEntity
  pub lifecycle_calls : List LifecycleCallEntity
