-- ===== src/Manager/Flags.antt =====
-- cmd/main.go: the flags, by name.
use opensearch_dataprepper_k.Common.Maps.{Map, lookup}
use opensearch_dataprepper_k.Common.{String, Bool, true, false, Option, [], ◌∷◌}

-- The variables that the flags set.
pub record Options : Type 0 where
  pub metrics_addr : String
  pub metrics_cert_path : String
  pub metrics_cert_name : String
  pub metrics_cert_key : String
  pub webhook_cert_path : String
  pub webhook_cert_name : String
  pub webhook_cert_key : String
  pub enable_leader_election : Bool
  pub probe_addr : String
  pub secure_metrics : Bool
  pub enable_http2 : Bool

abbrev pub defaults : Options
defaults = record {
  metrics_addr = "0";
  metrics_cert_path = "";
  metrics_cert_name = "tls.crt";
  metrics_cert_key = "tls.key";
  webhook_cert_path = "";
  webhook_cert_name = "tls.crt";
  webhook_cert_key = "tls.key";
  enable_leader_election = false;
  probe_addr = ":8081";
  secure_metrics = true;
  enable_http2 = false;
}

-- What flag.StringVar and flag.BoolVar register: how a value is stored.
pub data Variable : Type 0 where
  text : (String → Options → Options) → Variable
  boolean : (Bool → Options → Options) → Variable

-- The calls of flag.StringVar and flag.BoolVar, by the name of the flag.
abbrev pub variables : Map Variable
variables =
    ("metrics-bind-address", text λ v o. record o { metrics_addr = v })
    ∷ ("health-probe-bind-address", text λ v o. record o { probe_addr = v })
    ∷ ("leader-elect", boolean λ b o. record o { enable_leader_election = b })
    ∷ ("metrics-secure", boolean λ b o. record o { secure_metrics = b })
    ∷ ("webhook-cert-path", text λ v o. record o { webhook_cert_path = v })
    ∷ ("webhook-cert-name", text λ v o. record o { webhook_cert_name = v })
    ∷ ("webhook-cert-key", text λ v o. record o { webhook_cert_key = v })
    ∷ ("metrics-cert-path", text λ v o. record o { metrics_cert_path = v })
    ∷ ("metrics-cert-name", text λ v o. record o { metrics_cert_name = v })
    ∷ ("metrics-cert-key", text λ v o. record o { metrics_cert_key = v })
    ∷ ("enable-http2", boolean λ b o. record o { enable_http2 = b })
    ∷ []

abbrev pub find_variable : String → Option Variable
find_variable name = lookup name variables
