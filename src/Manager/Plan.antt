-- ===== src/Manager/Plan.antt =====
-- The steps of main as a list, and how far a process gets in it.
use opensearch_dataprepper_k.Common.{
  ◌≡◌, refl, ap, ◌∙◌, ◌⊎◌, inl, inr, not, Bool-cases, List, [], ◌∷◌, ◌++◌, All, ◌==◌, if◌then◌else◌,
}
use opensearch_dataprepper_k.Kube.Result.{Error, ok, err, Result-cases}
use opensearch_dataprepper_k.Manager.Flags.{Options}
use opensearch_dataprepper_k.Manager.CommandLine.{Parsed, parse, parsed, usage_error, help}
use opensearch_dataprepper_k.Manager.Servers.{manager_options}
use opensearch_dataprepper_k.Manager.Registration.{
  cluster_controller, pipeline_controller, setup_cluster_webhook, setup_pipeline_webhook,
}
use opensearch_dataprepper_k.Manager.Main.{
  Step, get_config, new_manager, add_controller, add_webhook, add_healthz_check, add_readyz_check,
  start, Environment, Outcome, exited, running, Process, must, unless_disabled, start_up, main,
  with_flags, next, ◌>>◌,
}

-- The steps in the order made, put onto those made before, the latest first.
abbrev pub onto : List Step → List Step → List Step
onto [] h = h
onto (s ∷ ss) h = onto ss (s ∷ h)

module _ (env : Environment) where
  abbrev pub webhooks : List Step
  webhooks =
      if not (env.enable_webhooks == "false")
      then add_webhook (setup_pipeline_webhook env.client)
        ∷ add_webhook (setup_cluster_webhook env.client env.machinery)
        ∷ []
      else []

  -- All that a manager needs before it serves, and the start.
  abbrev pub plan : Options → List Step
  plan o =
      get_config
      ∷ new_manager (manager_options o)
      ∷ add_controller (cluster_controller env.client env.machinery)
      ∷ add_controller (pipeline_controller env.client env.machinery)
      ∷ (webhooks ++ (add_healthz_check "healthz" ∷ add_readyz_check "readyz" ∷ start ∷ []))

  -- One after the other, each with success.
  abbrev pub Granted : List Step → List Step → Type 0
  Granted [] h = Unit
  Granted (s ∷ ss) h = (env.answer h s ≡ ok tt) × Granted ss (s ∷ h)

  -- The first of the steps that fails, between those before and behind it.
  pub record Failure (ss h : List Step) : Type 0 where
    pub before : List Step
    pub failing : Step
    pub behind : List Step
    pub error : Error
    pub parts : ss ≡ before ++ (failing ∷ behind)
    pub succeeded : Granted before h
    pub failed : env.answer (onto before h) failing ≡ err error

  -- A process that makes the steps until one fails.
  abbrev run : List Step → Process (Unit {0})
  run [] h = (running tt, h)
  run (s ∷ ss) h = next (λ _. run ss) (must env s h)

  -- The process has made all the steps, or has exited with status 1 behind the first that failed.
  abbrev pub EndsAs : List Step → List Step → Outcome (Unit {0}) × List Step → Type 0
  EndsAs ss h end =
      (Granted ss h × (end ≡ (running tt, onto ss h)))
      ⊎ ((f : Failure ss h) × (end ≡ (exited 1, f.failing ∷ onto f.before h)))

  must-succeeds :
      (s : Step) (h : List Step) → env.answer h s ≡ ok tt → must env s h ≡ (running tt, s ∷ h)
  unfolding must
  must-succeeds s h made = rw (made, must) refl

  must-fails :
      (s : Step) (h : List Step) (e : Error)
      → env.answer h s ≡ err e
      → must env s h ≡ (exited 1, s ∷ h)
  unfolding must
  must-fails s h e failed = rw (failed, must) refl

  run-EndsAs : (ss h : List Step) → EndsAs ss h (run ss h)
  unfolding must
  run-EndsAs [] h = inl (tt, refl)
  run-EndsAs (s ∷ ss) h = elim (Result-cases (env.answer h s)) [
    | inr (e, failed) ↦
        let f : Failure (s ∷ ss) h = record {
          before = [];
          failing = s;
          behind = ss;
          error = e;
          parts = refl;
          succeeded = tt;
          failed = failed;
        } in
        inr (f, ap (next λ _. run ss) (must-fails s h e failed))
    | inl (u, made) ↦ elim (run-EndsAs ss (s ∷ h)) [
      | inl (granted, end) ↦
          inl ((made, granted), ap (next λ _. run ss) (must-succeeds s h made) ∙ end)
      | inr (f, end) ↦
          let g : Failure (s ∷ ss) h = record {
            before = s ∷ f.before;
            failing = f.failing;
            behind = f.behind;
            error = f.error;
            parts = ap (λ xs. s ∷ xs) f.parts;
            succeeded = (made, f.succeeded);
            failed = f.failed;
          } in
          inr (g, ap (next λ _. run ss) (must-succeeds s h made) ∙ end)
    ]
  ]

  record Runs (m : Process (Unit {0})) (ss : List Step) : Type 0 where
    at : (h : List Step) → m h ≡ run ss h

  next-run :
      (m : Process (Unit {0})) (ss : List Step)
      → Runs m ss
      → (end : Outcome (Unit {0}) × List Step) → next (λ _. m) end ≡ next (λ _. run ss) end
  next-run m ss rest (running u, h) = rest.at h
  next-run m ss rest (exited code, h) = refl

  -- One step in front of what runs.
  step_then :
      (s : Step) (m : Process (Unit {0})) (ss : List Step)
      → Runs m ss
      → Runs (must env s >> m) (s ∷ ss)
  step_then s m ss rest = record { at = λ h. next-run m ss rest (must env s h) }

  ends : (end : Outcome (Unit {0}) × List Step) → end ≡ next (λ _. run []) end
  ends (running u, h) = refl
  ends (exited code, h) = refl

  last_step : (s : Step) → Runs (must env s) (s ∷ [])
  last_step s = record { at = λ h. ends (must env s h) }

  -- Both webhooks, or none.
  webhooks_then :
      (m : Process (Unit {0})) (ss : List Step)
      → Runs m ss
      → Runs
          (unless_disabled env (must env (add_webhook (setup_pipeline_webhook env.client)))
            >> (unless_disabled env
                  (must env (add_webhook (setup_cluster_webhook env.client env.machinery)))
                >> m))
          (webhooks ++ ss)
  unfolding unless_disabled
  webhooks_then m ss rest = elim (Bool-cases (not (env.enable_webhooks == "false"))) [
    | inl enabled ↦ rw enabled (step_then _ _ _ (step_then _ _ _ rest))
    | inr disabled ↦ rw disabled (record { at = rest.at })
  ]

  start_up-Runs : (o : Options) → Runs (start_up env o) (plan o)
  unfolding start_up
  start_up-Runs o = step_then _ _ _ (
      step_then _ _ _ (
        step_then _ _ _ (
          step_then _ _ _
            (webhooks_then _ _ (step_then _ _ _ (step_then _ _ _ (last_step start)))))))

  -- Where the command line gives options, main ends in one of two ways. Every step of the plan has
  -- been made with success, and main returns. Or a step fails: main exits with status 1, has made that
  -- step and with success those before it, and nothing behind it.
  pub main-EndsAs :
      (o : Options) → parse env.library_flag env.args ≡ parsed o → EndsAs (plan o) [] (main env [])
  unfolding main
  main-EndsAs o given = rw (given, main) (rw ((start_up-Runs o).at []) (run-EndsAs (plan o) []))

  must-All : (P : Step → Type 0) (s : Step) (h : List Step) → P s → All P h → All P (must env s h).1
  unfolding must
  must-All P s h p k = elim (Result-cases (env.answer h s)) [
    | inl (u, made) ↦ rw (made, must) (p, k)
    | inr (e, failed) ↦ rw (failed, must) (p, k)
  ]

  next-All :
      (P : Step → Type 0) (m : Process (Unit {0}))
      → ((h : List Step) → All P h → All P (m h).1)
      → (end : Outcome (Unit {0}) × List Step) → All P end.1
      → All P (next (λ _. m) end).1
  next-All P m rest (running u, h) k = rest h k
  next-All P m rest (exited code, h) k = k

  run-All : (P : Step → Type 0) (ss h : List Step) → All P ss → All P h → All P (run ss h).1
  run-All P [] h ps k = k
  run-All P (s ∷ ss) h (p, ps) k =
      next-All P (run ss) (λ h' k'. run-All P ss h' ps k') (must env s h) (must-All P s h p k)

  with_flags-All :
      (P : Step → Type 0) (r : Parsed)
      → ((o : Options) → r ≡ parsed o → All P (plan o))
      → All P (with_flags env r []).1
  unfolding with_flags
  with_flags-All P (parsed o) k = rw ((start_up-Runs o).at []) (run-All P (plan o) [] (k o refl) tt)
  with_flags-All P usage_error k = tt
  with_flags-All P help k = tt

  -- What holds of the steps of the plan for the options given holds of the steps that main makes.
  pub main-All :
      (P : Step → Type 0)
      → ((o : Options) → parse env.library_flag env.args ≡ parsed o → All P (plan o))
      → All P (main env []).1
  unfolding main
  main-All P k = with_flags-All P (parse env.library_flag env.args) k
