-- ===== src/Tests/World.antt =====
-- A world with one record, one anchor and one call, in which an audit passes. A served body is the
-- text of the one commitment's value.
use graph_privacy_showcase_d.Common.{
  true_is_not_false, ℕ, false, Option, none, some, List, [], ◌∷◌, ◌++◌, ◌≡◌, ◌≢◌, refl, sym, ◌∙◌,
  if◌then◌else◌, ok, replicate,
}
use graph_privacy_showcase_d.Common.Text.{Text, codes, text_eq, text_eq_iff, strip_prefix}
use graph_privacy_showcase_d.Json.{Json}
use graph_privacy_showcase_d.Anchors.{AnchorSet, CommitmentEntity, LifecycleCallEntity}
use graph_privacy_showcase_d.Records.{DisclosedRecord, disclosed, ManifestEntry, RecordsManifest}
use graph_privacy_showcase_d.Records.Manifest.{Disk, manifest_schema}
use graph_privacy_showcase_d.Attestation.{AttestationOps, AuditBundle, bundle_schema, DomainConfig}
use graph_privacy_showcase_d.Reconcile.{ChainReader}
use graph_privacy_showcase_d.Tamper.{JsonEdit}
use graph_privacy_showcase_d.Tamper.Resigned.{CreateLaws}
use graph_privacy_showcase_d.Session.Audit.{System, AuditArgs}
use graph_privacy_showcase_d.Tests.{test_field}

-- Every field of a value but `errors` is the value itself.
abbrev field_of : Text → Text → Option Text
field_of v key = if text_eq key (codes "errors") then none else some v

abbrev pub test_json : Json
test_json = record {
  Value = Text;
  from_str = λ body. some body;
  to_string = λ v. some v;
  get = field_of;
  pointer = λ v path. some v;
  is_null = λ v. false;
  as_array = λ v. some (v ∷ []);
  as_str = λ v. some v;
}

abbrev first_item : Text → List Text → Text
first_item v [] = v
first_item v (w ∷ items) = w

abbrev pub test_edit : JsonEdit test_json
test_edit = record {
  with_array_at = λ v path items. first_item v items;
  with_key = λ v key new. new;
  string = λ t. t;
}

abbrev pub test_attestations : AttestationOps
test_attestations = record {
  Address = Text;
  Domain = ℕ;
  Signer = Text;
  keccak256 = λ t. t;
  parse_deployment = λ t. some t;
  address_to_string = λ a. a;
  eip712_domain = λ chain manager. chain;
  recover_allocation = λ d a. some a.r;
  create = λ d signer deployment request response. record {
    request_cid = request;
    response_cid = response;
    deployment = deployment;
    r = signer;
    s = [];
    v = 27;
  };
  verify = λ d a signer request response. text_eq a.r signer;
}

abbrev pub test_create : CreateLaws test_attestations
test_create = record {
  address = λ s. s;
  binds_response = λ d s deployment request response. refl;
  binds_request = λ d s deployment request response. refl;
  binds_deployment = λ d s deployment request response. refl;
  recovers = λ d s deployment request response. refl;
}

abbrev pub commitment : Text → Text → CommitmentEntity
commitment index value = record {
  id = codes "c";
  leaf_index = index;
  value = value;
  source_function = codes "MINT";
  tx_hash = [];
  block_number = codes "9";
  timestamp = codes "0";
  caller = [];
}

abbrev pub call : Text → Text → LifecycleCallEntity
call id count = record {
  id = id;
  function = codes "MINT";
  leaf_count_after = count;
  proof_hash = [];
  proof_length = codes "0";
  tx_hash = [];
  block_number = codes "9";
  timestamp = codes "0";
  caller = [];
}

abbrev pub set_of : List CommitmentEntity → List LifecycleCallEntity → AnchorSet
set_of commitments calls = record {
  meta = record {
    block = record { number = 9; hash = codes "0xaa" };
    deployment = codes "Qm";
    has_indexing_errors = false;
  };
  bonds = [];
  commitments = commitments;
  nullifiers = [];
  roots_claimed = [];
  lifecycle_calls = calls;
}

abbrev pub served_set : Text → AnchorSet
served_set value = set_of (commitment (codes "0") value ∷ []) (call (codes "0x1") (codes "1") ∷ [])

-- The fields add up to five, which is the hash of the test's field.
abbrev pub test_record : DisclosedRecord
test_record = record {
  commitment = codes "0x5";
  nullifier = codes "0x0";
  value = 1;
  salt = 1;
  owner = codes "0x1";
  asset_id = 1;
  maturity_date = 1;
  created_at = codes "2030";
}

-- The canonical text of five.
abbrev pub five_text : Text
five_text = codes "0x" ++ (replicate 63 b'0' ++ codes "5")

abbrev pub six_text : Text
six_text = codes "0x" ++ (replicate 63 b'0' ++ codes "6")

abbrev pub entry_at : ℕ → Text → ManifestEntry
entry_at index text = record {
  leaf_index = index;
  class = disclosed;
  record_file = some (codes "a.json");
  commitment = text;
  source_function = codes "MINT";
  note = [];
}

abbrev pub manifest_of : List ManifestEntry → RecordsManifest
manifest_of entries = record {
  schema = manifest_schema;
  bond_id = codes "0x01";
  bond_id_string = codes "XF";
  maturity_date = 1;
  leaf_counts_after_each_call = 1 ∷ [];
  call_order = codes "mint" ∷ [];
  entries = entries;
}

abbrev pub test_manifest : RecordsManifest
test_manifest = manifest_of (entry_at 0 five_text ∷ [])

abbrev pub test_disk : Disk
test_disk = record {
  read_to_string = λ path. some path;
  join = λ dir file. file;
  manifest_from_str = λ raw. some test_manifest;
  record_from_str = λ raw. some test_record;
}

abbrev pub test_bundle : AuditBundle
test_bundle = record {
  schema = bundle_schema;
  request = codes "{}";
  response = codes "0x5";
  attestation = test_attestations.create 1 (codes "0xa") (codes "Qm") (codes "{}") (codes "0x5");
  deployment = codes "Qm";
  endpoint = codes "test";
  routed_indexer = none;
}

abbrev pub test_domain : DomainConfig test_attestations
test_domain = record { chain_id = 1; dispute_manager = codes "0xd" }

-- A contract with the one leaf five.
abbrev pub test_chain : ChainReader
test_chain = record {
  is_known_root = λ root. ok (text_eq root (replicate 63 b'0' ++ codes "5"));
  commitment_at = λ index. ok (replicate 31 0 ++ 5 ∷ []);
}

-- The digits stand for the bytes.
abbrev pub test_parse_b256 : Text → Option (List ℕ)
test_parse_b256 text = strip_prefix (codes "0x") text

abbrev pub test_system : System
test_system = record {
  field = test_field;
  json = test_json;
  edit = test_edit;
  from_value = λ v. some (served_set v);
  attestations = test_attestations;
  disk = test_disk;
  bundle_from_str = λ raw. some test_bundle;
  parse_b256 = test_parse_b256;
  parse_address = λ t. some t;
  connect = λ rpc address. ok test_chain;
}

abbrev pub test_args : AuditArgs test_system
test_args = record {
  bundle = codes "bundle.json";
  manifest = codes "manifest.json";
  records_dir = codes "records";
  rpc_url = some (codes "rpc");
  contract = some (codes "0xc");
  domain = test_domain;
}

pub texts_differ : (s t : Text) → text_eq s t ≡ false → s ≢ t
texts_differ s t h e = true_is_not_false (sym ((text_eq_iff s t).1 e) ∙ h)
