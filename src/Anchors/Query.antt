-- ===== src/Anchors/Query.antt =====
-- The queries of anchors.rs.
use graph_privacy_showcase_d.Common.{◌++◌}
use graph_privacy_showcase_d.Common.Text.{Text, codes, decimal}
use graph_privacy_showcase_d.Anchors.{BlockPinValue, hash, number, page_limit}

unfoldable pub as_graphql : BlockPinValue → Text
as_graphql (hash h) = codes "block: {hash: \"" ++ h ++ codes "\"}"
as_graphql (number n) = codes "block: {number: " ++ decimal n ++ codes "}"

unfoldable pub meta_query : Text
meta_query = codes "{_meta{block{number hash}deployment hasIndexingErrors}}"

-- One collection of the audit query: its name, the pin, and the rest, which holds the page limit.
abbrev collection : Text → Text → Text → Text
collection name b fields = name ++ b ++ codes ",first:" ++ decimal page_limit ++ fields

unfoldable pub audit_query : BlockPinValue → Text
audit_query pin =
    let b = as_graphql pin in
    codes "{_meta("
    ++ b
    ++ codes "){block{number hash}deployment hasIndexingErrors}"
    ++ collection (codes "bonds(") b (codes "){id address bondId leafCount nullifierCount}")
    ++ collection (codes "commitments(") b (
        codes
          ",orderBy:leafIndex,orderDirection:asc){id leafIndex value sourceFunction txHash blockNumber timestamp caller}")
    ++ collection (codes "nullifiers(") b (
        codes
          ",orderBy:id,orderDirection:asc){id value sourceFunction txHash blockNumber timestamp caller}")
    ++ collection (codes "rootClaimeds(") b (
        codes
          ",orderBy:id,orderDirection:asc){id root sourceFunction txHash blockNumber timestamp}")
    ++ collection (codes "lifecycleCalls(") b (
        codes
          ",orderBy:id,orderDirection:asc){id function leafCountAfter proofHash proofLength txHash blockNumber timestamp caller}")
    ++ codes "}"
