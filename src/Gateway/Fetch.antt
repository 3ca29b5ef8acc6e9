-- ===== src/Gateway/Fetch.antt =====
-- `GatewayClient::fetch` of gateway.rs.
use graph_privacy_showcase_d.Common.{Option, context, request_failed}
use graph_privacy_showcase_d.Common.Effects.{Run, ◌>>=◌, lift}
use graph_privacy_showcase_d.Common.Text.{Text}
use graph_privacy_showcase_d.Attestation.{AuditBundle}
use graph_privacy_showcase_d.Gateway.{
  HttpResponse, Net, GatewayClient, client_post_body, read_response,
}

module _ (N : Net) where
  open N use {World}

  -- `.send().await`
  unfoldable pub send : Text → Text → Option Text → Run World HttpResponse
  send url body key w =
      let (response, v) = N.post url body key w in (context request_failed response, v)

  unfoldable pub fetch : GatewayClient → Text → Text → Text → Option Text → Run World AuditBundle
  fetch client url query deployment routed_indexer = do
    response ← send url (client_post_body N query) client.api_key
    lift (read_response N url query deployment routed_indexer response)
