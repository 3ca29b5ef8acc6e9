-- ===== src/Reconcile.antt =====
-- reconcile.rs of items/01-private-bond-replay/src/replay/src: the types of the report. The checks stand
-- in `Checks`, and `reconcile` in `Run`.
pub mod Scope
pub mod Checks
pub mod Run
pub mod Accounting
pub mod Verdict
pub mod Soundness
pub mod Complete
pub mod Tampering
use graph_privacy_showcase_d.Common.{ℕ, Bool, true, false, Option, List, Result}
use graph_privacy_showcase_d.Common.Text.{Text, codes}
use graph_privacy_showcase_d.Common.BTreeMap.{BTreeMap}
use graph_privacy_showcase_d.Anchors.{AnchorSet}
use graph_privacy_showcase_d.Attestation.{B256, CheckOutcome, pass, fail, OfflineVerification}
use graph_privacy_showcase_d.Records.{DisclosedRecord, RecordsManifest}

-- The sentences of a record check's detail, by the values that they show.
pub data RecordDetail : Type 0 where
  matches not_served : RecordDetail
  differs : Text → Text → RecordDetail
  -- "(manifest also disagrees with the record file)"
  manifest_disagrees : RecordDetail → RecordDetail

pub record RecordCheck : Type 0 where
  pub leaf_index : ℕ
  pub record_file : Text
  pub value : ℕ
  pub owner : Text
  pub recomputed_commitment : Text
  pub served_commitment : Option Text
  pub outcome : CheckOutcome
  pub detail : RecordDetail

-- The two sentences of the accounting.
pub data AccountingDetail : Type 0 where
  cover_each_other do_not_cover : AccountingDetail

pub record AnchorAccounting : Type 0 where
  pub served_leaf_count : ℕ
  pub disclosed_count : ℕ
  pub burn_output_zero_count : ℕ
  pub unaccounted_leaf_indices : List ℕ
  pub missing_leaf_indices : List ℕ
  pub outcome : CheckOutcome
  pub detail : AccountingDetail

-- The label of a call: its name in the manifest, or its position.
pub data CallLabel : Type 0 where
  named : Text → CallLabel
  call_number : ℕ → CallLabel

-- The sentences of a root check.
pub data RootDetail : Type 0 where
  in_known_roots no_rpc_endpoint : RootDetail
  not_in_known_roots : CallLabel → RootDetail

pub record RootCheck : Type 0 where
  pub after_call : CallLabel
  pub leaf_count : ℕ
  pub rebuilt_root : Text
  pub known_on_chain : Option Bool
  pub outcome : CheckOutcome
  pub detail : RootDetail

pub record OnChainCrossCheck : Type 0 where
  pub leaf_index : ℕ
  pub served : Text
  pub on_chain : Text
  pub outcome : CheckOutcome

-- The sentences of `failures`.
pub data Failure : Type 0 where
  attestation_failed : Failure
  manifest_record_mismatch : ℕ → Text → Text → Failure
  leaf_not_reconciled : ℕ → Text → Failure
  accounting_failed : ℕ → ℕ → Failure
  root_not_replayed : CallLabel → ℕ → Failure
  served_not_stored : ℕ → Text → Text → Failure

pub record ReconcileReport : Type 0 where
  pub schema : Text
  pub deployment : Text
  pub contract : Text
  pub bond_id : Text
  pub bond_id_string : Text
  pub pinned_block_number : ℕ
  pub pinned_block_hash : Text
  pub attestation : OfflineVerification
  pub records : List RecordCheck
  pub anchor_accounting : AnchorAccounting
  pub root_replay : List RootCheck
  pub on_chain_cross_check : Option (List OnChainCrossCheck)
  pub result : CheckOutcome
  pub failures : List Failure
  pub scope : List Text

pub record ReconcileInputs : Type 0 where
  pub anchor_set : AnchorSet
  pub manifest : RecordsManifest
  pub records : BTreeMap ℕ DisclosedRecord
  pub attestation : OfflineVerification
  pub deployment : Text
  pub contract : Text

abbrev pub report_schema : Text
report_schema = codes "bond-replay/reconcile-report/1"

-- The part of onchain.rs that `reconcile` calls: what the node answers during the run. The reader asks for the
-- latest block each time; one function stands for all the answers, so that two equal reads of one run agree.
pub record ChainReader : Type 0 where
  pub is_known_root : B256 → Result Bool
  pub commitment_at : ℕ → Result B256
