-- ===== src/Reconcile/Scope.antt =====
-- What every report says about its scope (reconcile.rs).
use graph_privacy_showcase_d.Common.{List, [], ◌∷◌, ◌++◌}
use graph_privacy_showcase_d.Common.Text.{Text, codes}

-- The wording of `scope_notes`.
abbrev completeness_note : Text
completeness_note =
    codes "Completeness is with respect to on-chain anchors, never off-chain reality: a "
    ++ (codes "record the issuer never anchored is invisible to this check. This is not a "
        ++ (codes "proof of reserves."))

abbrev attestation_note : Text
attestation_note =
    codes "The attestation is a signature, not a validity proof. Where the signer "
    ++ (codes "resolves to a staked allocation it makes a wrong answer attributable and "
        ++ (codes "slashable; it never makes an answer correct. A run that did not resolve the "
            ++ (codes "signer has not established stake at all.")))

abbrev root_agreement_note : Text
root_agreement_note =
    codes "Root agreement is anchored in the chain, read from the operator's own RPC "
    ++ (codes "endpoint. A serving layer that alters the anchor log fails this check even "
        ++ (codes "when its response carries a perfectly valid attestation."))

abbrev leak_note : Text
leak_note =
    codes "This run leaks its own subject: the gateway and each serving indexer observe "
    ++ (codes "which deployment was audited, the full query text, and when. Read privacy "
        ++ (codes "does not exist today; see item 06."))

unfoldable pub scope_notes : List Text
scope_notes = completeness_note ∷ attestation_note ∷ root_agreement_note ∷ leak_note ∷ []
