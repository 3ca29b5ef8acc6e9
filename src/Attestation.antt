-- ===== src/Attestation.antt =====
-- attestation.rs of items/01-private-bond-replay/src/replay/src, and the audit bundle of gateway.rs.
pub mod Means
pub mod Domain
pub mod Offline
pub mod Signer
pub mod Isolation
use graph_privacy_showcase_d.Common.{ℕ, Bool, true, false, Option, List}
use graph_privacy_showcase_d.Common.Text.{Text, codes}

-- A value of 32 bytes.
abbrev pub B256 : Type 0
B256 = List ℕ

-- `thegraph_core::attestation::Attestation`
pub record Attestation : Type 0 where
  pub request_cid : B256
  pub response_cid : B256
  pub deployment : B256
  pub r : B256
  pub s : B256
  pub v : ℕ

-- The crates `alloy` and `thegraph-core`.
pub record AttestationOps : Type 1 where
  pub Address : Type 0
  pub Domain : Type 0
  pub Signer : Type 0
  -- `keccak256(text.as_bytes())`
  pub keccak256 : Text → B256
  -- `text.parse::<DeploymentId>()`, into 32 bytes
  pub parse_deployment : Text → Option B256
  pub address_to_string : Address → Text
  pub eip712_domain : ℕ → Address → Domain
  pub recover_allocation : Domain → Attestation → Option Address
  -- `create(domain, signer, deployment, request, response)`
  pub create : Domain → Signer → B256 → Text → Text → Attestation
  pub verify : Domain → Attestation → Address → Text → Text → Bool

-- gateway.rs
pub record AuditBundle : Type 0 where
  pub schema : Text
  pub request : Text
  pub response : Text
  pub attestation : Attestation
  pub deployment : Text
  pub endpoint : Text
  pub routed_indexer : Option Text

abbrev pub bundle_schema : Text
bundle_schema = codes "bond-replay/audit-bundle/1"

pub data CheckOutcome : Type 0 where
  pass fail : CheckOutcome

abbrev pub is_pass : CheckOutcome → Bool
is_pass pass = true
is_pass fail = false

abbrev pub is_fail : CheckOutcome → Bool
is_fail pass = false
is_fail fail = true

-- The sentences of a check's detail, by the values that they show. The two on recovery also show the
-- domain, and the failures the text of the error; these are left out.
pub data Detail : Type 0 where
  hashes_to : B256 → Detail
  binds_other : B256 → B256 → Detail
  deployment_is deployment_differs : Text → B256 → Detail
  not_a_deployment_id : Text → Detail
  recovered : Text → Detail
  not_recovered : Detail

pub record CheckResult : Type 0 where
  pub step : Text
  pub outcome : CheckOutcome
  pub detail : Detail

pub record OfflineVerification : Type 0 where
  pub checks : List CheckResult
  pub recovered_allocation : Option Text
  pub result : CheckOutcome
  pub means : Text

abbrev pub passed : OfflineVerification → Bool
passed v = is_pass v.result

module _ (A : AttestationOps) where
  pub record DomainConfig : Type 0 where
    pub chain_id : ℕ
    pub dispute_manager : A.Address

  abbrev pub eip712 : DomainConfig → A.Domain
  eip712 d = A.eip712_domain d.chain_id d.dispute_manager
