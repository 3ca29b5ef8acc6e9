-- ===== src/MockGateway/Program.antt =====
-- bin/mock-gateway.rs: the gateway that the program sets up. The n-th random key is an argument; the
-- arguments are those that the parser gives.
use graph_privacy_showcase_d.Common.{ℕ, zero, suc, ◌+◌, Option, List, [], ◌∷◌, Result, ok, ◌>>=◌}
use graph_privacy_showcase_d.Common.Text.{Text}
use graph_privacy_showcase_d.Json.{Json}
use graph_privacy_showcase_d.Attestation.{AttestationOps}
use graph_privacy_showcase_d.Attestation.Domain.{default_domain}
use graph_privacy_showcase_d.Gateway.{Net}
use graph_privacy_showcase_d.MockGateway.{
  ServerOps, MockIndexer, MockGateway, proxying_indexer, new_gateway, with_indexers,
}

pub record Cli : Type 0 where
  pub upstream : Text
  pub deployment : Text
  pub port : ℕ
  pub indexers : ℕ

module _ (N : Net) (J : Json) (A : AttestationOps) (X : ServerOps J A) where
  -- `(0..cli.indexers).map(..)`, from the `i`-th key on.
  unfoldable pub extra_indexers : (ℕ → A.Signer) → Text → ℕ → ℕ → List (MockIndexer N J A X)
  extra_indexers key upstream i zero = []
  extra_indexers key upstream i (suc rounds) =
      proxying_indexer N J A X (key i) upstream ∷ extra_indexers key upstream (i + 1) rounds

  -- The gateway of `main`. The parser of addresses reads that of the default domain.
  unfoldable pub set_up :
      (Text → Option A.Address) → Cli → (ℕ → A.Signer) → Result (MockGateway N J A X)
  set_up parse_address cli key = do
    domain ← default_domain A parse_address
    let default_indexer = proxying_indexer N J A X (key 0) cli.upstream
    let extra = extra_indexers key cli.upstream 1 cli.indexers
    gateway ← new_gateway N J A X domain cli.deployment default_indexer
    ok (with_indexers N J A X gateway extra)
