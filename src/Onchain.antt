-- ===== src/Onchain.antt =====
-- onchain.rs of items/01-private-bond-replay/src/replay/src: the reads of the contract, all at the block of the
-- reader.
pub mod Storage
use graph_privacy_showcase_d.Common.{
  ℕ, zero, suc, ◌+◌, Bool, Option, List, [], ◌∷◌, Result, ok, err, ◌>>=◌, context, cannot_connect,
  call_failed, no_chain_head,
}
use graph_privacy_showcase_d.Common.Text.{Text}
use graph_privacy_showcase_d.Attestation.{B256}
use graph_privacy_showcase_d.Reconcile as Reconcile

-- The crate `alloy`: a connection to a node, and the getters of the contract's interface, which give
-- none where the call fails or reverts.
pub record Node : Type 1 where
  pub Address : Type 0
  pub BlockId : Type 0
  pub Provider : Type 0
  pub dial : Text → Option Provider
  pub get_block_number : Provider → Option ℕ
  pub bond_id_of : Provider → Address → BlockId → Option B256
  pub commitments_of : Provider → Address → BlockId → ℕ → Option B256
  pub known_roots_of : Provider → Address → BlockId → B256 → Option Bool
  pub nullifiers_of : Provider → Address → BlockId → B256 → Option Bool

module _ (N : Node) where
  pub record ChainReader : Type 0 where
    pub provider : N.Provider
    pub contract : N.Address
    pub block : N.BlockId

  unfoldable pub connect : Text → N.Address → N.BlockId → Result ChainReader
  connect rpc_url contract block = context (cannot_connect rpc_url) (N.dial rpc_url) >>= λ provider.
      ok (record { provider = provider; contract = contract; block = block })

  unfoldable pub block_number : ChainReader → Result ℕ
  block_number r = context no_chain_head (N.get_block_number r.provider)

  unfoldable pub bond_id : ChainReader → Result B256
  bond_id r = context call_failed (N.bond_id_of r.provider r.contract r.block)

  unfoldable pub is_known_root : ChainReader → B256 → Result Bool
  is_known_root r root = context call_failed (N.known_roots_of r.provider r.contract r.block root)

  unfoldable pub is_nullifier_spent : ChainReader → B256 → Result Bool
  is_nullifier_spent r nullifier =
      context call_failed (N.nullifiers_of r.provider r.contract r.block nullifier)

  unfoldable pub commitment_at : ChainReader → ℕ → Result B256
  commitment_at r index = context call_failed (N.commitments_of r.provider r.contract r.block index)

  -- The rounds of the loop from an index on, which a failing call ends.
  unfoldable pub read_from : ChainReader → ℕ → ℕ → List B256
  read_from r i zero = []
  read_from r i (suc rounds) = elim (commitment_at r i) [
    | ok value ↦ value ∷ read_from r (i + 1) rounds
    | err e ↦ []
  ]

  unfoldable pub read_all_commitments : ChainReader → ℕ → Result (List B256)
  read_all_commitments r expected_max = ok (read_from r 0 (suc expected_max))

  -- The reader as `reconcile` uses it.
  abbrev pub for_reconcile : ChainReader → Reconcile.ChainReader
  for_reconcile r = record { is_known_root = is_known_root r; commitment_at = commitment_at r }
