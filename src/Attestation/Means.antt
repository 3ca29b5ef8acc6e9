-- ===== src/Attestation/Means.antt =====
-- What passing the offline checks does and does not establish (attestation.rs).
use graph_privacy_showcase_d.Common.{◌++◌}
use graph_privacy_showcase_d.Common.Text.{Text, codes}

-- `MEANS`
unfoldable pub means_of_passing : Text
means_of_passing =
    codes "The recovered address signed these exact request and response bytes for "
    ++ (codes "this deployment. Whether it is an allocation with stake behind it is "
        ++ (codes "established only by signer resolution against the network subgraph; without "
            ++ (codes "that step this is a well-formed signature by an unidentified key. Even "
                ++ (codes "fully resolved it is attribution, not validation: it does not establish "
                    ++ (codes "that the served data is correct, only that an identifiable party is "
                        ++ (codes "answerable for it."))))))
