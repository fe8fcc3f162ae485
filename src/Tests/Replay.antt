-- ===== src/Tests/Replay.antt =====
-- A server that keeps what it is sent.
use opensearch_dataprepper_k.Common.{
  ◌≡◌, String, Bool, true, refl, ap, List, Option, some, Option-cases, inl, inr, arith, eq_iff,
  ◌==◌, if◌then◌else◌, [], ◌∷◌, none,
}
use opensearch_dataprepper_k.Kube.Result.{Result, api, ok, err}
use opensearch_dataprepper_k.Kube.Client.{
  Server, Call, write, update, update_status, pipeline_body, writes,
}
use opensearch_dataprepper_k.Api.{Pipeline}
use opensearch_dataprepper_k.PipelineController.Reconcile.{pipeline_finalizer}
use opensearch_dataprepper_k.PipelineController.Quiet.{IsQuiet, status_update}
use opensearch_dataprepper_k.PipelineController.Repeated.Created.{pipeline_update, StoresFinalizers}
use opensearch_dataprepper_k.Tests.Fixtures.{first, second, pod, server}
use opensearch_dataprepper_k.Tests.Stored.{
  config_map_in, deployment_in, config_map_in-stored, deployment_in-stored,
}

abbrev pub held : Pipeline
held = record first { metadata = record (first.metadata) { finalizers = pipeline_finalizer ∷ [] } }

abbrev stored : Call → Option Pipeline
stored (write update_status (pipeline_body x)) = some x
stored (write update (pipeline_body x)) = some x
stored _ = none

-- The pipeline of that name, as it was last written.
abbrev last_pipeline : String → Pipeline → List Call → Pipeline
last_pipeline name base [] = base
last_pipeline name base (c ∷ h) = elim (stored c) [
  | some x ↦ if x.metadata.name == name then x else last_pipeline name base h
  | none ↦ last_pipeline name base h
]

last_pipeline-name :
    (name : String) (base : Pipeline) (h : List Call)
    → base.metadata.name ≡ name
    → (last_pipeline name base h).metadata.name ≡ name
last_pipeline-name name base [] e = e
last_pipeline-name name base (c ∷ h) e = elim (Option-cases (stored c)) [
  | inl other ↦ ground (arith, last_pipeline-name name base h e)
  | inr (x, status) ↦ ground (arith, last_pipeline-name name base h e, eq_iff x.metadata.name name)
]

abbrev pub other : Pipeline
other = record second {
  metadata = record (second.metadata) { finalizers = pipeline_finalizer ∷ [] };
}

abbrev named : Pipeline → List Call → String → Result Pipeline
named base ws name =
    if name == "first"
    then ok (last_pipeline "first" base ws)
    else if name == "second"
    then ok (last_pipeline "second" other ws)
    else err (api "NotFound")

-- The objects of a cluster and two pipelines, each as it was last written; the first pipeline starts as
-- `base`, and ConfigMaps and Deployments are there at first or have to be created.
abbrev pub replay_from : Bool → Pipeline → Server
replay_from at_first base = record (server (base ∷ other ∷ []) (pod none ∷ [])) {
  config_map = λ h ns name. config_map_in at_first (writes h) ns name;
  deployment = λ h ns name. deployment_in at_first (writes h) ns name;
  pipeline = λ h ns name. named base (writes h) name;
}

abbrev pub replay : Server
replay = replay_from true held

module _ (at_first : Bool) (base : Pipeline) (is_first : base.metadata.name ≡ "first") where
  replay-stored :
      (ws : List Call) (c : Call) (name : String) (x y : Pipeline)
      → stored c ≡ some y
      → named base ws name ≡ ok x
      → y.metadata.name ≡ x.metadata.name
      → named base (c ∷ ws) name ≡ ok y
  replay-stored ws c name x y written found same_name = ground (
    arith,
    written,
    same_name,
    last_pipeline-name "first" base ws is_first,
    last_pipeline-name "second" other ws refl,
    eq_iff name "first",
    eq_iff name "second",
    eq_iff y.metadata.name "first",
    eq_iff y.metadata.name "second",
  )

  pub replay-IsQuiet : IsQuiet (replay_from at_first base)
  replay-IsQuiet = record {
    read_alike = λ h h' same. record {
      cluster = λ ns name. refl;
      pipeline = λ ns name. ap (λ w. named base w name) same;
      pipeline_list = λ ns. refl;
    };
    read_config_map = λ h h' ns name same. ap (λ w. config_map_in at_first w ns name) same;
    read_deployment = λ h h' ns name same. ap (λ w. deployment_in at_first w ns name) same;
    read_pods = λ h h' ns labels same. refl;
    config_map_stored = λ h ns name x y found same accepted.
        config_map_in-stored at_first (writes h) ns name x y found same;
    config_map_alike = λ h y. record {
      cluster = λ ns name. refl;
      pipeline = λ ns name. refl;
      pipeline_list = λ ns. refl;
    };
    config_map_deployment = λ h y ns name. refl;
    deployment_stored = λ h ns name x y found same accepted.
        deployment_in-stored at_first (writes h) ns name x y found same;
    deployment_alike = λ h y. record {
      cluster = λ ns name. refl;
      pipeline = λ ns name. refl;
      pipeline_list = λ ns. refl;
    };
    deployment_config_map = λ h y ns name. refl;
    status_stored = λ h ns name x y found same accepted.
        replay-stored (writes h) (status_update y) name x y refl found
          (ap (λ z. z.metadata.name) same);
    status_listed = λ h y ns items listed. (items, listed, refl);
    status_cluster = λ h y ns name. refl;
    status_config_map = λ h y ns name. refl;
    status_deployment = λ h y ns name. refl;
    status_pods = λ h y ns labels. refl;
  }

  pub replay-StoresFinalizers : StoresFinalizers (replay_from at_first base)
  replay-StoresFinalizers = record {
    stored = λ h ns name x y found same accepted.
        replay-stored (writes h) (pipeline_update y) name x y refl found
          (ap (λ z. z.metadata.name) same);
    listed = λ h y ns items listed. (items, listed, refl);
    cluster = λ h y ns name. refl;
    config_map = λ h y ns name. refl;
    deployment = λ h y ns name. refl;
  }
