-- ===== src/Attestation/Domain.antt =====
-- The default attestation domain (attestation.rs).
use graph_privacy_showcase_d.Common.{ℕ, Option, Result, ok, ◌>>=◌, context, not_an_address}
use graph_privacy_showcase_d.Common.Text.{Text, codes}
use graph_privacy_showcase_d.Attestation.{AttestationOps, DomainConfig}

abbrev pub default_chain_id : ℕ
default_chain_id = 42161

abbrev pub default_dispute_manager : Text
default_dispute_manager = codes "0x0Ab2B043138352413Bb02e67E626a70320E3BD46"

-- `DomainConfig::default`, with the parser of addresses.
unfoldable pub default_domain :
    (A : AttestationOps) → (Text → Option A.Address) → Result (DomainConfig A)
default_domain A parse_address = do
  dispute_manager ← context not_an_address (parse_address default_dispute_manager)
  ok (record { chain_id = default_chain_id; dispute_manager = dispute_manager })
