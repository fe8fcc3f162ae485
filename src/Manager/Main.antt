-- ===== src/Manager/Main.antt =====
-- cmd/main.go: main, as a process that sets up the manager step by step and exits at the first error.
use opensearch_dataprepper_k.Common.{ℕ, String, not, Option, List, ◌∷◌, ◌==◌, if◌then◌else◌}
use opensearch_dataprepper_k.Kube.Result.{Result, ok, err}
use opensearch_dataprepper_k.Kube.Client.{Server, Machinery}
use opensearch_dataprepper_k.Manager.Flags.{Options}
use opensearch_dataprepper_k.Manager.CommandLine.{
  LibraryFlag, Parsed, parsed, usage_error, help, parse,
}
use opensearch_dataprepper_k.Manager.Servers.{ManagerOptions, manager_options}
use opensearch_dataprepper_k.Manager.Registration.{
  Controller, Webhook, cluster_controller, pipeline_controller, setup_cluster_webhook,
  setup_pipeline_webhook,
}

-- The calls into controller-runtime.
pub data Step : Type 0 where
  -- ctrl.GetConfigOrDie, ctrl.NewManager
  get_config : Step
  new_manager : ManagerOptions → Step
  -- Complete of the builders
  add_controller : Controller → Step
  add_webhook : Webhook → Step
  -- AddHealthzCheck and AddReadyzCheck with healthz.Ping, Start
  add_healthz_check : String → Step
  add_readyz_check : String → Step
  start : Step

-- What surrounds the process. The answer to a call may depend on the calls before it. Start answers once
-- the manager has stopped.
pub record Environment : Type 0 where
  pub args : List String
  -- os.Getenv("ENABLE_WEBHOOKS")
  pub enable_webhooks : String
  pub library_flag : String → Option LibraryFlag
  pub answer : List Step → Step → Result (Unit {0})
  -- the manager's client, and the library functions that the handlers call
  pub client : Server
  pub machinery : Machinery

-- A process that has ended with an exit status, or goes on.
pub data Outcome {ℓ} (A : Type ℓ) : Type ℓ where
  exited : ℕ → Outcome A
  running : A → Outcome A

abbrev pub Process {ℓ} : Type ℓ → Type ℓ
Process A = List Step → Outcome A × List Step

module _ {ℓ} {A : Type ℓ} where
  abbrev pub pure : A → Process A
  pure a h = (running a, h)

  abbrev pub exit : ℕ → Process A
  exit code h = (exited code, h)

module _ {ℓ κ} {A : Type ℓ} {B : Type κ} where
  abbrev pub next : (A → Process B) → Outcome A × List Step → Outcome B × List Step
  next f (running a, h) = f a h
  next f (exited code, h) = (exited code, h)

  infixl 10 ◌>>=◌
  abbrev pub ◌>>=◌ : Process A → (A → Process B) → Process B
  ◌>>=◌ m f h = next f (m h)

module _ {κ} {B : Type κ} where
  infixl 10 ◌>>◌
  abbrev pub ◌>>◌ : Process (Unit {0}) → Process B → Process B
  m >> n = m >>= λ _. n

module _ (env : Environment) where
  -- `if err := ...; err != nil { setupLog.Error(...); os.Exit(1) }`
  unfoldable pub must : Step → Process (Unit {0})
  must step h = elim (env.answer h step) [
    | ok _ ↦ (running tt, step ∷ h)
    | err _ ↦ (exited 1, step ∷ h)
  ]

  unfoldable pub unless_disabled : Process (Unit {0}) → Process (Unit {0})
  unless_disabled setup = if not (env.enable_webhooks == "false") then setup else pure tt

  -- From the parsed flags on.
  unfoldable pub start_up : Options → Process (Unit {0})
  start_up o = do
    must get_config
    must (new_manager (manager_options o))
    must (add_controller (cluster_controller env.client env.machinery))
    must (add_controller (pipeline_controller env.client env.machinery))
    unless_disabled (must (add_webhook (setup_pipeline_webhook env.client)))
    unless_disabled (must (add_webhook (setup_cluster_webhook env.client env.machinery)))
    must (add_healthz_check "healthz")
    must (add_readyz_check "readyz")
    must start

  -- flag.Parse exits by itself on an error, and when asked for help.
  unfoldable pub with_flags : Parsed → Process (Unit {0})
  with_flags usage_error = exit 2
  with_flags help = exit 0
  with_flags (parsed o) = start_up o

  unfoldable pub main : Process (Unit {0})
  unfolding with_flags
  main = with_flags (parse env.library_flag env.args)
