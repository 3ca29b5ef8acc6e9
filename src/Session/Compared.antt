-- ===== src/Session/Compared.antt =====
-- What a success of `cmd_consistency` of main.rs establishes.
use graph_privacy_showcase_d.Common.{
  ℕ, ◌≤◌, ◌+◌, Option, refl, sym, true, false, none, some, List, ◌≡◌, ap, ◌∙◌, All, length,
  is_empty, ok, context, bail_if, context-eq-ok, bail_if-eq-ok, ok-injective, not_json,
  nothing_to_compare, if◌then◌else◌,
}
use graph_privacy_showcase_d.Common.Effects.{◌>>=◌, lift, run-eq-ok, lift-eq-ok}
use graph_privacy_showcase_d.Common.Text.{Text, codes}
use graph_privacy_showcase_d.Anchors.Query.{meta_query}
use graph_privacy_showcase_d.Attestation.{AuditBundle, DomainConfig, pass}
use graph_privacy_showcase_d.Consistency.{Collected, RouteKind, bodies, ConsistencyReport}
use graph_privacy_showcase_d.Consistency.Agreement.{
  AllSame, SignedBy, indexer_count, build_report_pass_iff,
}
use graph_privacy_showcase_d.Attestation.Signer.{ResolvedSigner, text_at}
use graph_privacy_showcase_d.Gateway.{
  Net, HttpResponse, client_post_body, new_client, deployment_url,
}
use graph_privacy_showcase_d.Gateway.Fetched.{IsAttested, fetch-IsAttested}
use graph_privacy_showcase_d.Session.Listed.{IsListing, fetch_active_indexers-IsListing}
use graph_privacy_showcase_d.Gateway.Fetch.{fetch}
use graph_privacy_showcase_d.Session.Audit.{System}
use graph_privacy_showcase_d.Session.Output.{
  config, Output, consistency_to_json, write_json, write_bundles,
}
use graph_privacy_showcase_d.Session.Sampling.{sample}
use graph_privacy_showcase_d.Session.Verified.{IsAnswer, sample-IsVerified}
use graph_privacy_showcase_d.Session.Outcome.{is_pass→≡}
use graph_privacy_showcase_d.Session.Commands.{
  ConsistencyArgs, is_byte_identical, block_hash, number_of, block_number, fetch_active_indexers,
  sample_of, report_of, write_evidence, cmd_consistency,
}

module _ (S : System) (N : Net) (O : Output S N) where
  open S use {json, attestations, field}

  write_evidence-true :
      (args : ConsistencyArgs) (report : ConsistencyReport) (collected : List Collected)
      (w v : N.World)
      → write_evidence S N O args report collected w ≡ (ok true, v)
      → (report.result ≡ pass)
        × (printed : Text) × (u : N.World) × (consistency_to_json S N O report ≡ ok printed)
        × (write_json S N O args.report printed u ≡ (ok tt, v))
  unfolding write_evidence
  write_evidence-true args report collected w v e =
      let (_, w1, e1, k1) =
        run-eq-ok
          (if is_byte_identical report.agreement
            then lift (ok tt)
            else O.create_dir_all args.bundles_dir >>= λ _.
                write_bundles S N O args.bundles_dir 0 collected)
          _ w v true e in
      let (printed, w2, e2, k2) =
        run-eq-ok (lift (consistency_to_json S N O report)) _ w1 v true k1 in
      let (_, w3, e3, k3) = run-eq-ok (write_json S N O args.report printed) _ w2 v true k2 in
      let same : w3 ≡ v = ap (λ p. p.1) k3 in
      (
        is_pass→≡ report.result (ok-injective _ true (lift-eq-ok _ w3 v true k3)),
        printed,
        w2,
        lift-eq-ok _ w1 w2 printed e2,
        e3 ∙ ap (λ x. (ok tt, x)) same,
      )

  -- The bundle that answers the query for the gateway's block.
  abbrev pub MetaAsked : ConsistencyArgs → AuditBundle → N.World → N.World → Type 0
  MetaAsked args meta w v =
      let client = new_client args.gateway args.api_key in
      let url = deployment_url client args.deployment in
      (response : HttpResponse) × (N.post url (client_post_body N meta_query) client.api_key w
        ≡ (some response, v))
      × IsAttested N url meta_query args.deployment none response meta

  block_hash-eq-ok :
      (value : json.Value) (h : Text)
      → block_hash S N O value ≡ ok h
      → text_at json value (codes "/data/_meta/block/hash") ≡ some h
  unfolding block_hash
  block_hash-eq-ok value h e = context-eq-ok _ _ e

  block_number-eq-ok :
      (value : json.Value) (number : ℕ)
      → block_number S N O value ≡ ok number
      → (n : json.Value) × (json.pointer value (codes "/data/_meta/block/number") ≡ some n)
        × (O.as_u64 n ≡ some number)
  unfolding block_number
  block_number-eq-ok value number e =
      go (json.pointer value (codes "/data/_meta/block/number")) refl (context-eq-ok _ _ e)
    where
      go :
          (o : Option json.Value)
          → json.pointer value (codes "/data/_meta/block/number") ≡ o
          → number_of S N O o ≡ some number
          → (n : json.Value) × (json.pointer value (codes "/data/_meta/block/number") ≡ some n)
            × (O.as_u64 n ≡ some number)
      go none p q = absurd (cc)
      go (some n) p q = (n, p, q)

  -- What a comparison with a success has established, in the order in which it was done.
  pub record IsAgreed (args : ConsistencyArgs) (w v : N.World) : Type 0 where
    pub meta : AuditBundle
    pub value : json.Value
    pub hash : Text
    pub number : ℕ
    pub domain : DomainConfig attestations
    pub candidates : List Text
    pub collected : List Collected
    pub route : RouteKind
    pub signers : List ResolvedSigner
    pub printed : Text
    pub pinned : N.World
    pub listed : N.World
    pub sampled : N.World
    pub before : N.World
    pub meta_asked : MetaAsked args meta w pinned
    pub is_json : json.from_str meta.response ≡ some value
    pub pinned_hash : text_at json value (codes "/data/_meta/block/hash") ≡ some hash
    pub pinned_number :
        (n : json.Value) × (json.pointer value (codes "/data/_meta/block/number") ≡ some n)
        × (O.as_u64 n ≡ some number)
    pub in_domain : config S args.domain ≡ ok domain
    pub is_listing : IsListing S N O args.network_subgraph args.deployment candidates pinned listed
    pub was_sampled :
        sample N json attestations
          (sample_of S N O args domain hash)
          candidates
          args.max_attempts
          listed
        ≡ (ok (collected, route), sampled)
    pub some_answer : is_empty collected ≡ false
    pub answers :
        All (IsAnswer N json attestations (sample_of S N O args domain hash) candidates) collected
    pub bounded : length collected ≤ length candidates + args.max_attempts
    pub signed : SignedBy collected signers
    pub enough : args.min_signers ≤ indexer_count signers
    pub same : AllSame (bodies collected)
    pub is_printed :
        consistency_to_json S N O (report_of S N O args number hash (collected, route)) ≡ ok printed
    pub is_written : write_json S N O args.report printed before ≡ (ok tt, v)

  -- If `cmd_consistency` ends with a success, then, in this order: the gateway answered the query for its
  -- block with an attested bundle, which names one block by its hash and its number; the network
  -- subgraph listed allocations of the deployment, and the candidates are their indexers, each once
  -- and in lower case; the sampling of these candidates at this block collected at least one answer, and
  -- no more than there are candidates and attempts. Every answer is to the audit query at this
  -- block, for the deployment of the arguments, came by the route to a candidate or by the main route,
  -- and passes the offline checks under its allocation;
  -- the signers are all resolved and belong to at least the requested number of different indexers;
  -- all responses are the same text; and the report of these answers was the last thing written.
  pub cmd_consistency_sound :
      (args : ConsistencyArgs) (w v : N.World)
      → cmd_consistency S N O args w ≡ (ok true, v)
      → IsAgreed args w v
  unfolding cmd_consistency
  cmd_consistency_sound args w v e =
      let client = new_client args.gateway args.api_key in
      let (meta, w1, e1, k1) =
        run-eq-ok
          (fetch N client (deployment_url client args.deployment) meta_query args.deployment none) _
          w v true e in
      let (value, w2, e2, k2) =
        run-eq-ok (lift (context not_json (json.from_str meta.response))) _ w1 v true k1 in
      let (h, w3, e3, k3) = run-eq-ok (lift (block_hash S N O value)) _ w2 v true k2 in
      let (n, w4, e4, k4) = run-eq-ok (lift (block_number S N O value)) _ w3 v true k3 in
      let (domain, w5, e5, k5) = run-eq-ok (lift (config S args.domain)) _ w4 v true k4 in
      let (candidates, w6, e6, k6) =
        run-eq-ok (fetch_active_indexers S N O args.network_subgraph args.deployment) _ w5 v true
          k5 in
      let still : w5 ≡ w1 =
        sym (ap (λ p. p.1) e2 ∙ ap (λ p. p.1) e3 ∙ ap (λ p. p.1) e4 ∙ ap (λ p. p.1) e5) in
      let asked = sample_of S N O args domain h in
      let (sampled, w7, e7, k7) =
        run-eq-ok (sample N json attestations asked candidates args.max_attempts) _ w6 v true k6 in
      let (_, w8, e8, k8) =
        run-eq-ok (lift (bail_if (is_empty sampled.0) nothing_to_compare)) _ w7 v true k7 in
      let (passes, printed, before, is_printed, is_written) =
        write_evidence-true args (report_of S N O args n h sampled) sampled.0 w8 v k8 in
      let (answers, bounded) =
        sample-IsVerified N json attestations asked candidates args.max_attempts sampled w6 w7 e7 in
      let (signers, signed, enough, same) =
        (build_report_pass_iff field.hex_encode json O.value_eq args.deployment h n args.min_signers
            sampled.1 sampled.0).0
          passes in
      record {
        meta = meta;
        value = value;
        hash = h;
        number = n;
        domain = domain;
        candidates = candidates;
        collected = sampled.0;
        route = sampled.1;
        printed = printed;
        signers = signers;
        pinned = w1;
        listed = w6;
        sampled = w7;
        before = before;
        meta_asked =
            fetch-IsAttested N client (deployment_url client args.deployment) meta_query
              args.deployment none w w1 meta e1;
        is_listing =
            fetch_active_indexers-IsListing S N O args.network_subgraph args.deployment candidates
              w1 w6
              (ap (fetch_active_indexers S N O args.network_subgraph args.deployment) (sym still)
                ∙ e6);
        was_sampled = e7;
        is_json = context-eq-ok _ _ (lift-eq-ok _ w1 w2 value e2);
        pinned_hash = block_hash-eq-ok value h (lift-eq-ok _ w2 w3 h e3);
        pinned_number = block_number-eq-ok value n (lift-eq-ok _ w3 w4 n e4);
        in_domain = lift-eq-ok _ w4 w5 domain e5;
        some_answer = bail_if-eq-ok _ _ (lift-eq-ok _ w7 w8 _ e8);
        answers = answers;
        bounded = bounded;
        signed = signed;
        enough = enough;
        same = same;
        is_printed = is_printed;
        is_written = is_written;
      }
