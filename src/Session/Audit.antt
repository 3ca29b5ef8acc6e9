-- ===== src/Session/Audit.antt =====
-- `load_bundle`, `open_chain` and the audits of `cmd_reconcile` and `cmd_tamper` of main.rs.
use graph_privacy_showcase_d.Common.{
  ℕ, Bool, false, not, ◌||◌, Option, none, some, List, [], ◌∷◌, if◌then◌else◌, Result, ok, err,
  ◌>>=◌, ◌>>◌, context, bail_if, is_some, cannot_read, cannot_parse, unexpected_schema,
  not_an_address, no_bond_address, no_record_argument, record_not_listed, record_not_loaded,
  resigned_not_verified, needs_chain, root_replay_passed,
}
use graph_privacy_showcase_d.Common.Text.{Text, codes, text_eq}
use graph_privacy_showcase_d.Common.BTreeMap.{BTreeMap, nat_ord, get, insert}
use graph_privacy_showcase_d.Field.{FieldOps}
use graph_privacy_showcase_d.Json.{Json}
use graph_privacy_showcase_d.Anchors.{AnchorSet, BondEntity}
use graph_privacy_showcase_d.Anchors.Parse.{parse_anchor_set}
use graph_privacy_showcase_d.Records.{
  DisclosedRecord, ManifestEntry, RecordsManifest, recompute_commitment,
}
use graph_privacy_showcase_d.Records.Manifest.{Disk, load, load_records}
use graph_privacy_showcase_d.Attestation.{
  B256, AttestationOps, AuditBundle, bundle_schema, DomainConfig, passed, is_fail, is_pass,
}
use graph_privacy_showcase_d.Attestation.Offline.{verify_offline}
use graph_privacy_showcase_d.Reconcile.{ReconcileReport, ReconcileInputs, ChainReader, RootCheck}
use graph_privacy_showcase_d.Reconcile.Run.{reconcile}
use graph_privacy_showcase_d.Tamper.{
  Tripwire, altered_record, altered_response_byte, resigned_altered_anchors, RecordField, JsonEdit,
  alter_record, alter_one_response_byte, resign_altered_anchors,
}

-- What the commands use that is not of the crate: its libraries, the disk, and the chain.
pub record System : Type 1 where
  pub field : FieldOps
  pub json : Json
  pub edit : JsonEdit json
  pub from_value : json.Value → Option AnchorSet
  pub attestations : AttestationOps
  pub disk : Disk
  pub bundle_from_str : Text → Option AuditBundle
  pub parse_b256 : Text → Option B256
  pub parse_address : Text → Option attestations.Address
  -- `ChainReader::connect` at the latest block
  pub connect : Text → attestations.Address → Result ChainReader

-- `report.passed()`
abbrev pub report_passed : ReconcileReport → Bool
report_passed report = is_pass report.result

abbrev pub names_file : Text → Option Text → Bool
names_file file none = false
names_file file (some f) = text_eq f file

-- `.iter().find(|e| e.record_file == Some(file))`
unfoldable pub find_entry : Text → List ManifestEntry → Option ManifestEntry
find_entry file [] = none
find_entry file (e ∷ es) = if names_file file e.record_file then some e else find_entry file es

abbrev pub any_root_failed : List RootCheck → Bool
any_root_failed [] = false
any_root_failed (r ∷ rs) = is_fail r.outcome || any_root_failed rs

module _ (S : System) where
  open S use {field, json, edit, attestations, disk}

  -- The arguments that the two commands share, with their domain.
  pub record AuditArgs : Type 0 where
    pub bundle : Text
    pub manifest : Text
    pub records_dir : Text
    pub rpc_url : Option Text
    pub contract : Option Text
    pub domain : DomainConfig attestations

  unfoldable pub load_bundle : Text → Result AuditBundle
  load_bundle path = do
    raw ← context (cannot_read path) (disk.read_to_string path)
    bundle ← context (cannot_parse path) (S.bundle_from_str raw)
    bail_if (not (text_eq bundle.schema bundle_schema)) (unexpected_schema bundle.schema)
    ok bundle

  -- The address in `open_chain`: the one given, or that of the first bond that is served.
  unfoldable pub contract_address : Option Text → List BondEntity → Result attestations.Address
  contract_address (some c) bonds = context not_an_address (S.parse_address c)
  contract_address none [] = err no_bond_address
  contract_address none (b ∷ bonds) = context not_an_address (S.parse_address b.address)

  unfoldable pub open_chain : Option Text → Option Text → AnchorSet → Result (Option ChainReader)
  open_chain none contract set = ok none
  open_chain (some rpc) contract set = do
    address ← contract_address contract set.bonds
    reader ← S.connect rpc address
    ok (some reader)

  abbrev unwrap_or_unknown : Option Text → Text
  unwrap_or_unknown none = codes "unknown"
  unwrap_or_unknown (some c) = c

  abbrev pub inputs_of :
      AuditArgs
      → AnchorSet
      → RecordsManifest
      → BTreeMap ℕ DisclosedRecord
      → AuditBundle
      → ReconcileInputs
  inputs_of args set manifest records bundle = record {
    anchor_set = set;
    manifest = manifest;
    records = records;
    attestation = verify_offline attestations bundle args.domain;
    deployment = bundle.deployment;
    contract = unwrap_or_unknown args.contract;
  }

  -- The report of `cmd_reconcile` on a bundle that was loaded.
  unfoldable pub audit : AuditArgs → Bool → AuditBundle → Result ReconcileReport
  audit args verify_onchain bundle = do
    set ← parse_anchor_set json S.from_value bundle.response
    manifest ← load disk args.manifest
    records ← load_records disk manifest args.records_dir
    chain ← open_chain args.rpc_url args.contract set
    reconcile field S.parse_b256 (inputs_of args set manifest records bundle) chain verify_onchain

  -- The arm of `cmd_tamper` for each tripwire: whether the tampering was caught.
  unfoldable pub tamper_record :
      AuditArgs → Option Text → RecordField → AuditBundle → RecordsManifest → Result Bool
  tamper_record args record_file altered_field bundle manifest = do
    file ← context no_record_argument record_file
    records ← load_records disk manifest args.records_dir
    entry ← context record_not_listed (find_entry file manifest.entries)
    original ← context record_not_loaded (get entry.leaf_index records)
    altered ← alter_record field original altered_field
    was ← recompute_commitment field original
    now ← recompute_commitment field altered
    set ← parse_anchor_set json S.from_value bundle.response
    chain ← open_chain args.rpc_url args.contract set
    report ←
        reconcile field S.parse_b256
          (inputs_of args set manifest (insert entry.leaf_index altered records) bundle) chain false
    ok (not (report_passed report))

  unfoldable pub tamper_byte : AuditArgs → AuditBundle → Result Bool
  tamper_byte args bundle = do
    response ← alter_one_response_byte bundle.response
    ok (
        not (
          passed (verify_offline attestations (record bundle { response = response }) args.domain)))

  unfoldable pub tamper_resigned :
      AuditArgs → attestations.Signer → AuditBundle → RecordsManifest → Result Bool
  tamper_resigned args signer bundle manifest = do
    liar ← resign_altered_anchors json edit attestations bundle args.domain signer
    bail_if (not (passed (verify_offline attestations liar args.domain))) resigned_not_verified
    set ← parse_anchor_set json S.from_value liar.response
    chain ← open_chain args.rpc_url args.contract set
    bail_if (not (is_some chain)) needs_chain
    records ← load_records disk manifest args.records_dir
    report ← reconcile field S.parse_b256 (inputs_of args set manifest records liar) chain false
    bail_if (not (any_root_failed report.root_replay)) root_replay_passed
    ok (not (report_passed report))

  -- The match of `cmd_tamper` on the tripwire. The random key of the last one is an argument.
  unfoldable pub is_caught :
      AuditArgs
      → Option Text
      → RecordField
      → attestations.Signer
      → AuditBundle
      → RecordsManifest
      → Tripwire
      → Result Bool
  is_caught args record_file altered_field signer bundle manifest altered_record =
      tamper_record args record_file altered_field bundle manifest
  is_caught args record_file altered_field signer bundle manifest altered_response_byte =
      tamper_byte args bundle
  is_caught args record_file altered_field signer bundle manifest resigned_altered_anchors =
      tamper_resigned args signer bundle manifest
