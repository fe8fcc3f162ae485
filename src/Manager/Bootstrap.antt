-- ===== src/Manager/Bootstrap.antt =====
-- A pipeline behind the reconciliation of its cluster: what the one controller creates, the other one fills.
use Prim.Native.String.{count}
use text.Mathlib.TextLemmas.{length-append}
use opensearch_dataprepper_k.Common.{
  String, ◌≡◌, ◌≢◌, refl, ap, ◌↔◌, List, Bool, true, false, inl, inr, ◌==◌, ◌&&◌, ◌<>◌, eq_iff,
  eq_refl, arith,
}
use opensearch_dataprepper_k.Kube.Result.{ok, Result-cases}
use opensearch_dataprepper_k.Kube.Objects.{ConfigMap, Deployment}
use opensearch_dataprepper_k.Kube.Client.{
  Server, Machinery, Call, Object, config_map_body, deployment_body,
}
use opensearch_dataprepper_k.Kube.Conditions.{ConditionLaws}
use opensearch_dataprepper_k.Kube.Present.{present, Leaves}
use opensearch_dataprepper_k.Api.{Cluster, Pipeline}
use opensearch_dataprepper_k.ClusterController.Config.{ResolvedConfig}
use opensearch_dataprepper_k.ClusterController.ConfigMaps.{
  pipelines_config_map_name, peer_config_map_name, reconcile_config_map,
}
use opensearch_dataprepper_k.ClusterController.Deployments.{
  reconcile_deployment, desired_deployment,
}
use opensearch_dataprepper_k.ClusterController.Scope.{IsKeyed}
use opensearch_dataprepper_k.ClusterController.Reconcile.{reconcile_cluster}
use opensearch_dataprepper_k.ClusterController.Kept.{IsSpared, config_map_left, deployment_left}
use opensearch_dataprepper_k.PipelineController.Order.{IsMergeable}
use opensearch_dataprepper_k.PipelineController.Quiet.{IsQuiet}
use opensearch_dataprepper_k.PipelineController.Reconcile.{reconcile}
use opensearch_dataprepper_k.PipelineController.Repeated.{IsSilent}
use opensearch_dataprepper_k.PipelineController.Repeated.Applied.{IsLive}
use opensearch_dataprepper_k.PipelineController.Repeated.Progress.{
  IsAccepting, Marshals, IsComplete, reconcile_converges,
}

abbrev pub the_config_map : String → String → Object → Bool
the_config_map ns name (config_map_body x) = x.metadata.namespace == ns && x.metadata.name == name
the_config_map ns name _ = false

abbrev pub the_deployment : String → String → Object → Bool
the_deployment ns name (deployment_body x) = x.metadata.namespace == ns && x.metadata.name == name
the_deployment ns name _ = false

-- The server returns the cluster's ConfigMap and its Deployment exactly when the calls made leave them there.
pub record HoldsObjects (api : Server) (c : Cluster) (cm_first deploy_first : Bool) : Type 0 where
  pub config_map :
      (h : List Call)
      → (present (the_config_map c.metadata.namespace (pipelines_config_map_name c)) cm_first h
          ≡ true)
        ↔ ((x : ConfigMap) × (api.config_map h c.metadata.namespace (pipelines_config_map_name c)
              ≡ ok x))
  pub deployment :
      (h : List Call)
      → (present (the_deployment c.metadata.namespace c.metadata.name) deploy_first h ≡ true)
        ↔ ((x : Deployment) × (api.deployment h c.metadata.namespace c.metadata.name ≡ ok x))

names_differ : (s : String) → s <> "-peer-config" ≢ s <> "-pipelines"
names_differ s e =
    let twelve : count "-peer-config" ≡ 12 = refl in
    let ten : count "-pipelines" ≡ 10 = refl in
    absurd (
      omega (
        arith,
        ap count e,
        length-append s "-peer-config",
        length-append s "-pipelines",
        twelve,
        ten,
      ))

module _ (api : Server) (lib : Machinery) (c : Cluster) (cm_first deploy_first : Bool)
    (keyed : IsKeyed api) (holds : HoldsObjects api c cm_first deploy_first) where
  abbrev ns : String
  ns = c.metadata.namespace

  config_map-IsSpared : IsSpared api c (the_config_map ns (pipelines_config_map_name c))
  config_map-IsSpared = record {
    autoscaler = λ x. refl;
    monitor = λ x. refl;
    peer_config = λ h x found.
        let (_, name) = keyed.config_map h ns (peer_config_map_name c) x found in
        ground (
          arith,
          name,
          eq_iff x.metadata.name (pipelines_config_map_name c),
          names_differ c.metadata.name,
        );
  }

  deployment-IsSpared : IsSpared api c (the_deployment ns c.metadata.name)
  deployment-IsSpared = record {
    autoscaler = λ x. refl;
    monitor = λ x. refl;
    peer_config = λ h x found. refl;
  }

  config_map-Leaves :
      Leaves
        (the_config_map ns (pipelines_config_map_name c))
        cm_first
        (reconcile_config_map api lib c)
  unfolding reconcile_config_map
  config_map-Leaves = record {
    at = λ h h' u e. elim (Result-cases (api.config_map h ns (pipelines_config_map_name c))) [
      | inl (x, found) ↦
          let there = (holds.config_map h).1 (x, found) in ground (arith, there, found, e)
      | inr (x, failed) ↦
          ground (arith, failed, e, eq_refl ns, eq_refl (pipelines_config_map_name c))
    ];
  }

  deployment-Leaves :
      (cfg : ResolvedConfig) (hash : String)
      → Leaves
          (the_deployment ns c.metadata.name)
          deploy_first
          (reconcile_deployment api lib c cfg hash)
  unfolding reconcile_deployment desired_deployment
  deployment-Leaves cfg hash = record {
    at = λ h h' u e. elim (Result-cases (api.deployment h ns c.metadata.name)) [
      | inl (x, found) ↦
          let there = (holds.deployment h).1 (x, found) in ground (arith, there, found, e)
      | inr (x, failed) ↦ ground (arith, failed, e, eq_refl ns, eq_refl c.metadata.name)
    ];
  }

  -- Where the server returns objects under the keys that were asked for, the cluster's ConfigMap and its
  -- Deployment exactly when the calls made leave them there, takes every write and changes its answers by
  -- the operator's own writes only, a write is read back, yaml.Marshal does not fail, setting a condition
  -- is idempotent and equality is reflexive, then behind a reconciliation of a cluster that succeeds, if
  -- the cluster and a list of pipelines that can be merged are read, a pipeline of the cluster that is
  -- read, has its finalizer and is not being deleted is reconciled with success, and another
  -- reconciliation succeeds and writes nothing.
  pub pipeline_follows_cluster :
      (accepting : IsAccepting api) (quiet : IsQuiet api) (marshals : Marshals lib)
      (laws : ConditionLaws lib) (name : String) (p : Pipeline) (items : List Pipeline)
      (c' : Cluster) (h h' : List Call)
      → reconcile_cluster api lib c h ≡ (ok tt, h')
      → IsLive api lib p
      → p.metadata.namespace ≡ c.metadata.namespace
      → p.spec.cluster_ref ≡ c.metadata.name
      → api.pipeline h' c.metadata.namespace name ≡ ok p
      → api.cluster h' c.metadata.namespace c.metadata.name ≡ ok c'
      → api.pipeline_list h' c.metadata.namespace ≡ ok items
      → IsMergeable c.metadata.name "" items
      → (h'' : List Call) × (reconcile api lib c.metadata.namespace name h' ≡ (ok tt, h''))
        × IsSilent api lib c.metadata.namespace name h''
  pipeline_follows_cluster accepting quiet marshals laws name p items c' h h' done live in_ns of
        found there listed mergeable =
      let made =
        (config_map_left api lib c (the_config_map ns (pipelines_config_map_name c)) cm_first
            config_map-IsSpared config_map-Leaves).at
          h h' tt done in
      let runs =
        (deployment_left api lib c (the_deployment ns c.metadata.name) deploy_first
            deployment-IsSpared deployment-Leaves).at
          h h' tt done in
      let (cm, has_cm) = (holds.config_map h').0 made in
      let (deploy, has_deploy) = (holds.deployment h').0 runs in
      let complete : IsComplete api ns c.metadata.name h' = record {
        cluster = c';
        items = items;
        cm = cm;
        deploy = deploy;
        found = there;
        listed = listed;
        mergeable = mergeable;
        config_map = has_cm;
        deployment = has_deploy;
      } in
      reconcile_converges api lib accepting quiet marshals laws ns name p h' live found
        (rw (in_ns, of) complete)
