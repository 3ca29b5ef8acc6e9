-- ===== src/Anchors/Parse.antt =====
-- `parse_anchor_set` of anchors.rs: what is refused, and what an accepted response is known to hold.
use graph_privacy_showcase_d.Common.{
  ℕ, ◌<◌, false, Option, some, ◌≡◌, arith, leb, length, Result, ok, ◌>>=◌, ◌>>◌, bail_if, context,
  not_json, graphql_errors, no_data, unexpected_shape, indexing_errors, page_limit_reached,
  lt→leb_false, Option-cases, inl, inr, ◌↔◌,
}
use graph_privacy_showcase_d.Common.Text.{Text, codes}
use graph_privacy_showcase_d.Json.{Json, carries_errors, HasNoErrors, carries_errors_iff}
use graph_privacy_showcase_d.Anchors.{AnchorSet, page_limit}

-- One round of the loop over the collections' lengths.
abbrev check_page : Text → ℕ → Result (Unit {0})
check_page name len = bail_if (leb page_limit len) (page_limit_reached name len)

unfoldable pub check_pages : AnchorSet → Result (Unit {0})
check_pages set = do
  check_page (codes "commitments") (length set.commitments)
  check_page (codes "nullifiers") (length set.nullifiers)
  check_page (codes "rootClaimeds") (length set.roots_claimed)
  check_page (codes "lifecycleCalls") (length set.lifecycle_calls)

-- `from_value` is serde's reading of a value at the type `AnchorSet`.
module _ (J : Json) (from_value : J.Value → Option AnchorSet) where
  unfoldable pub parse_anchor_set : Text → Result AnchorSet
  unfolding check_pages
  parse_anchor_set body = do
    envelope ← context not_json (J.from_str body)
    bail_if (carries_errors J envelope) graphql_errors
    value ← context no_data (J.get envelope (codes "data"))
    set ← context unexpected_shape (from_value value)
    bail_if set.meta.has_indexing_errors indexing_errors
    check_pages set
    ok set

  pub record IsServed (body : Text) (set : AnchorSet) : Type 0 where
    pub envelope : J.Value
    pub value : J.Value
    pub is_json : J.from_str body ≡ some envelope
    pub no_errors : HasNoErrors J envelope
    pub has_data : J.get envelope (codes "data") ≡ some value
    pub has_shape : from_value value ≡ some set
    pub no_indexing_errors : set.meta.has_indexing_errors ≡ false
    pub commitments_fit : length set.commitments < page_limit
    pub nullifiers_fit : length set.nullifiers < page_limit
    pub roots_fit : length set.roots_claimed < page_limit
    pub calls_fit : length set.lifecycle_calls < page_limit

  parsed_IsServed :
      (body : Text) (set : AnchorSet) → parse_anchor_set body ≡ ok set → IsServed body set
  unfolding parse_anchor_set
  parsed_IsServed body set h = elim (Option-cases (J.from_str body)) [
    | inl missing ↦ absurd (ground arith)
    | inr (envelope, is_json) ↦ elim (Option-cases (J.get envelope (codes "data"))) [
      | inl missing ↦ absurd (ground arith)
      | inr (value, has_data) ↦ record {
        envelope = envelope;
        value = value;
        is_json = is_json;
        no_errors = (carries_errors_iff J envelope).0 (ground arith);
        has_data = has_data;
        has_shape = ground arith;
        no_indexing_errors = ground arith;
        commitments_fit = ground arith;
        nullifiers_fit = ground arith;
        roots_fit = ground arith;
        calls_fit = ground arith;
      }
    ]
  ]

  IsServed-parsed :
      (body : Text) (set : AnchorSet) → IsServed body set → parse_anchor_set body ≡ ok set
  unfolding parse_anchor_set
  IsServed-parsed body set s = rw (
    s.is_json,
    (carries_errors_iff J s.envelope).1 s.no_errors,
    s.has_data,
    s.has_shape,
    s.no_indexing_errors,
    lt→leb_false _ _ s.commitments_fit,
    lt→leb_false _ _ s.nullifiers_fit,
    lt→leb_false _ _ s.roots_fit,
    lt→leb_false _ _ s.calls_fit,
  )

  -- A body is accepted as an anchor set exactly when it is JSON whose field `errors` is missing, null or empty, whose field
  -- `data` has the shape of that set, the deployment reports no indexing errors, and each of the
  -- collections of commitments, nullifiers, claimed roots and calls is below the page limit.
  pub parse_anchor_set_iff :
      (body : Text) (set : AnchorSet) → (parse_anchor_set body ≡ ok set) ↔ IsServed body set
  parse_anchor_set_iff body set = (parsed_IsServed body set, IsServed-parsed body set)
