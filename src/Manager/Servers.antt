-- ===== src/Manager/Servers.antt =====
-- cmd/main.go: the options of the webhook server, the metrics server and the manager.
use opensearch_dataprepper_k.Common.{
  String, Bool, not, Option, none, some, List, [], ◌∷◌, ◌==◌, if◌then◌else◌,
}
use opensearch_dataprepper_k.Manager.Flags.{Options}

-- tls.Config, as far as it is set here.
pub record TlsConfig : Type 0 where
  pub next_protos : List String
  pub remainder : String

-- disableHTTP2
unfoldable pub disable_http2 : TlsConfig → TlsConfig
disable_http2 c = record c { next_protos = "http/1.1" ∷ [] }

unfoldable pub tls_options : Options → List (TlsConfig → TlsConfig)
tls_options o = if not o.enable_http2 then disable_http2 ∷ [] else []

-- webhook.Options
pub record WebhookServerOptions : Type 0 where
  pub tls_opts : List (TlsConfig → TlsConfig)
  pub cert_dir : String
  pub cert_name : String
  pub key_name : String

unfoldable pub webhook_server_options : Options → WebhookServerOptions
unfolding tls_options
webhook_server_options o =
    let options : WebhookServerOptions = record {
      tls_opts = tls_options o;
      cert_dir = "";
      cert_name = "";
      key_name = "";
    } in
    if not (o.webhook_cert_path == "")
    then record options {
      cert_dir = o.webhook_cert_path;
      cert_name = o.webhook_cert_name;
      key_name = o.webhook_cert_key;
    }
    else options

-- A filter in front of the metrics: filters.WithAuthenticationAndAuthorization.
pub data FilterProvider : Type 0 where
  with_authentication_and_authorization : FilterProvider

-- metricsserver.Options
pub record MetricsServerOptions : Type 0 where
  pub bind_address : String
  pub secure_serving : Bool
  pub tls_opts : List (TlsConfig → TlsConfig)
  pub filter_provider : Option FilterProvider
  pub cert_dir : String
  pub cert_name : String
  pub key_name : String

unfoldable pub with_filter : Options → MetricsServerOptions → MetricsServerOptions
with_filter o options =
    if o.secure_metrics
    then record options { filter_provider = some with_authentication_and_authorization }
    else options

unfoldable pub with_certificate : Options → MetricsServerOptions → MetricsServerOptions
with_certificate o options =
    if not (o.metrics_cert_path == "")
    then record options {
      cert_dir = o.metrics_cert_path;
      cert_name = o.metrics_cert_name;
      key_name = o.metrics_cert_key;
    }
    else options

unfoldable pub metrics_server_options : Options → MetricsServerOptions
unfolding tls_options with_filter with_certificate
metrics_server_options o = with_certificate o (
    with_filter o record {
      bind_address = o.metrics_addr;
      secure_serving = o.secure_metrics;
      tls_opts = tls_options o;
      filter_provider = none;
      cert_dir = "";
      cert_name = "";
      key_name = "";
    })

-- ctrl.Options
pub record ManagerOptions : Type 0 where
  pub metrics : MetricsServerOptions
  pub webhook_server : WebhookServerOptions
  pub health_probe_bind_address : String
  pub leader_election : Bool
  pub leader_election_id : String

unfoldable pub manager_options : Options → ManagerOptions
unfolding webhook_server_options metrics_server_options
manager_options o = record {
  metrics = metrics_server_options o;
  webhook_server = webhook_server_options o;
  health_probe_bind_address = o.probe_addr;
  leader_election = o.enable_leader_election;
  leader_election_id = "167b3f2c.gabia.com";
}
