-- ===== src/Manager/CommandLine/RoundTrip.antt =====
-- All options can be written as a command line.
use opensearch_dataprepper_k.Common.{
  String, ◌≡◌, refl, Bool, true, false, Option, List, [], ◌∷◌, if◌then◌else◌,
}
use opensearch_dataprepper_k.Common.Maps.{lookup}
use opensearch_dataprepper_k.Manager.Flags.{Options}
use opensearch_dataprepper_k.Manager.CommandLine.{LibraryFlag, parsed, ready, parse_loop, parse}

abbrev texts : Options → List String → List String
texts o rest =
    "-metrics-bind-address" ∷ o.metrics_addr ∷ "-health-probe-bind-address" ∷ o.probe_addr
    ∷ "--webhook-cert-path" ∷ o.webhook_cert_path ∷ "--webhook-cert-name" ∷ o.webhook_cert_name
    ∷ "--webhook-cert-key" ∷ o.webhook_cert_key ∷ "--metrics-cert-path" ∷ o.metrics_cert_path
    ∷ "--metrics-cert-name" ∷ o.metrics_cert_name ∷ "--metrics-cert-key" ∷ o.metrics_cert_key ∷ rest

abbrev switches : (elects secure http2 : Bool) → List String
switches elects secure http2 =
    (if elects then "--leader-elect" else "--leader-elect=false")
    ∷ (if secure then "--metrics-secure" else "--metrics-secure=false")
    ∷ (if http2 then "--enable-http2" else "--enable-http2=false")
    ∷ []

abbrev pub command_line : Options → List String
command_line o = texts o (switches o.enable_leader_election o.secure_metrics o.enable_http2)

module _ (library : String → Option LibraryFlag) where
  parse_loop-switches :
      (elects secure http2 : Bool) (o : Options)
      → parse_loop library ready (switches elects secure http2) o
        ≡ parsed (record o {
          enable_leader_election = elects;
          secure_metrics = secure;
          enable_http2 = http2;
        })
  unfolding parse_loop lookup
  parse_loop-switches true true true o = refl
  parse_loop-switches true true false o = refl
  parse_loop-switches true false true o = refl
  parse_loop-switches true false false o = refl
  parse_loop-switches false true true o = refl
  parse_loop-switches false true false o = refl
  parse_loop-switches false false true o = refl
  parse_loop-switches false false false o = refl

  -- Whatever the options, text with dashes and empty text included, some command line gives just
  -- them.
  pub parse-command_line : (o : Options) → parse library (command_line o) ≡ parsed o
  unfolding parse lookup
  parse-command_line o =
      parse_loop-switches o.enable_leader_election o.secure_metrics o.enable_http2 _
