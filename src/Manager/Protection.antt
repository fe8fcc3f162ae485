-- ===== src/Manager/Protection.antt =====
-- What the manager's servers are protected by, unless the command line says otherwise.
use opensearch_dataprepper_k.Common.{
  String, ◌≡◌, refl, arith, true, false, not, Bool-cases, some, inl, inr, List, [], ◌∷◌, All, ◌==◌,
}
use opensearch_dataprepper_k.Manager.Flags.{Options}
use opensearch_dataprepper_k.Manager.CommandLine.Untouched.{Avoids}
use opensearch_dataprepper_k.Manager.CommandLine.Defaults.{parse-http2, parse-secure}
use opensearch_dataprepper_k.Manager.Servers.{
  TlsConfig, MetricsServerOptions, with_authentication_and_authorization, manager_options,
  metrics_server_options, webhook_server_options, tls_options, disable_http2, with_filter,
  with_certificate,
}
use opensearch_dataprepper_k.Manager.Registration.{Controller, Webhook}
use opensearch_dataprepper_k.Manager.Main.{
  Step, get_config, new_manager, add_controller, add_webhook, add_healthz_check, add_readyz_check,
  start, Environment, main,
}
use opensearch_dataprepper_k.Manager.Plan.{plan, main-All}

-- Each option applied to the configuration, in the order of the list.
abbrev configured : List (TlsConfig → TlsConfig) → TlsConfig → TlsConfig
configured [] c = c
configured (opt ∷ opts) c = configured opts (opt c)

abbrev OffersHttp1 : List (TlsConfig → TlsConfig) → Type 0
OffersHttp1 opts = (c : TlsConfig) → (configured opts c).next_protos ≡ "http/1.1" ∷ []

-- If the step makes the manager, neither of its servers offers more than HTTP/1.1.
abbrev pub ServesHttp1 : Step → Type 0
ServesHttp1 (new_manager m) = OffersHttp1 m.metrics.tls_opts × OffersHttp1 m.webhook_server.tls_opts
ServesHttp1 _ = Unit

abbrev GuardsMetrics : MetricsServerOptions → Type 0
GuardsMetrics m =
    (m.secure_serving ≡ true) × (m.filter_provider ≡ some with_authentication_and_authorization)

-- If the step makes the manager, it serves metrics over TLS, to those who have authenticated and are
-- authorized.
abbrev pub ProtectsMetrics : Step → Type 0
ProtectsMetrics (new_manager m) = GuardsMetrics m.metrics
ProtectsMetrics _ = Unit

tls_options-OffersHttp1 : (o : Options) → o.enable_http2 ≡ false → OffersHttp1 (tls_options o)
unfolding tls_options disable_http2
tls_options-OffersHttp1 o off c = rw off refl

-- Both servers are given the same TLS options.
metrics-tls_options : (o : Options) → (metrics_server_options o).tls_opts ≡ tls_options o
unfolding metrics_server_options with_filter with_certificate
metrics-tls_options o = ground arith

webhook-tls_options : (o : Options) → (webhook_server_options o).tls_opts ≡ tls_options o
unfolding webhook_server_options
webhook-tls_options o = ground arith

metrics-Guards : (o : Options) → o.secure_metrics ≡ true → GuardsMetrics (metrics_server_options o)
unfolding metrics_server_options with_filter with_certificate
metrics-Guards o secure = (ground (arith), ground (arith))

module _ (env : Environment) where
  -- What holds of the step for the manager, and says nothing of others, holds of the plan.
  plan-All :
      (P : Step → Type 0) (o : Options)
      → P (new_manager (manager_options o))
      → P get_config
      → ((c : Controller) → P (add_controller c))
      → ((w : Webhook) → P (add_webhook w))
      → ((name : String) → P (add_healthz_check name) × P (add_readyz_check name))
      → P start
      → All P (plan env o)
  plan-All P o p pg pc pw ph ps = elim (Bool-cases (not (env.enable_webhooks == "false"))) [
    | inl enabled ↦
        rw enabled (pg, (p, (pc _, (pc _, (pw _, (pw _, ((ph _).0, ((ph _).1, (ps, tt)))))))))
    | inr disabled ↦ rw disabled (pg, (p, (pc _, (pc _, ((ph _).0, ((ph _).1, (ps, tt)))))))
  ]

  -- Where no argument of the command line is the flag enable-http2, the servers of every manager that
  -- main makes offer no more than HTTP/1.1.
  pub main-ServesHttp1 : All (Avoids "enable-http2") env.args → All ServesHttp1 (main env []).1
  unfolding manager_options
  main-ServesHttp1 avoids = main-All env ServesHttp1 λ o given.
      let off = parse-http2 env.library_flag env.args o avoids given in
      let offers = tls_options-OffersHttp1 o off in
      plan-All ServesHttp1 o (rw (metrics-tls_options o) offers, rw (webhook-tls_options o) offers)
        tt (λ _. tt) (λ _. tt) (λ _. (tt, tt)) tt

  -- Where no argument of the command line is the flag metrics-secure, every manager that main makes
  -- serves metrics over TLS, behind authentication and authorization.
  pub main-ProtectsMetrics :
      All (Avoids "metrics-secure") env.args → All ProtectsMetrics (main env []).1
  unfolding manager_options
  main-ProtectsMetrics avoids = main-All env ProtectsMetrics λ o given.
      plan-All ProtectsMetrics o
        (metrics-Guards o (parse-secure env.library_flag env.args o avoids given)) tt (λ _. tt)
        (λ _. tt) (λ _. (tt, tt)) tt
