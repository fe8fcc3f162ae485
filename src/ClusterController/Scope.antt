-- ===== src/ClusterController/Scope.antt =====
-- Which objects a reconciliation of a cluster may write.
use opensearch_dataprepper_k.Common.{subst, String, ◌≡◌, ◌⊎◌, inl, inr, List, All, arith, ◌<>◌}
use opensearch_dataprepper_k.Kube.Result.{ok, Result-cases}
use opensearch_dataprepper_k.Kube.Objects.{
  ObjectMeta, ConfigMap, Deployment, Service, HorizontalPodAutoscaler, ServiceMonitor, Fields,
}
use opensearch_dataprepper_k.Kube.Client.{
  Server, Machinery, Call, get, list, write, Object, cluster_body, pipeline_body, config_map_body,
  deployment_body, service_body, autoscaler_body, monitor_body,
}
use opensearch_dataprepper_k.Kube.Makes.{Makes}
use opensearch_dataprepper_k.Api.{Cluster}
use opensearch_dataprepper_k.ClusterController.Config.{ResolvedConfig, resolve_config}
use opensearch_dataprepper_k.ClusterController.ConfigMaps.{
  new_meta, peer_config_map_name, headless_service_name, reconcile_config_map, store_peer_config,
  remove_peer_config, reconcile_peer_config,
}
use opensearch_dataprepper_k.ClusterController.Deployments.{
  desired_deployment, update_deployment, reconcile_deployment,
}
use opensearch_dataprepper_k.ClusterController.Services.{
  reconcile_service, reconcile_headless_service,
}
use opensearch_dataprepper_k.ClusterController.Autoscaling.{
  reconcile_hpa, store_autoscaler, remove_autoscaler,
}
use opensearch_dataprepper_k.ClusterController.Monitoring.{
  bare_monitor, desired_monitor_spec, reconcile_service_monitor, settle_monitor, store_monitor,
  remove_monitor,
}
use opensearch_dataprepper_k.ClusterController.Status.{reconcile_status}
use opensearch_dataprepper_k.ClusterController.Reconcile.{reconcile_cluster, reconcile}
use opensearch_dataprepper_k.ClusterController.Calls.{reconcile_cluster-Makes, reconcile-Makes}

abbrev pub IsAt : ObjectMeta → String → String → Type 0
IsAt m ns name = (m.namespace ≡ ns) × (m.name ≡ name)

-- The server returns an object under the namespace and the name that were asked for.
pub record IsKeyed (api : Server) : Type 0 where
  pub cluster :
      (h : List Call) (ns name : String) (x : Cluster)
      → api.cluster h ns name ≡ ok x
      → IsAt x.metadata ns name
  pub config_map :
      (h : List Call) (ns name : String) (x : ConfigMap)
      → api.config_map h ns name ≡ ok x
      → IsAt x.metadata ns name
  pub deployment :
      (h : List Call) (ns name : String) (x : Deployment)
      → api.deployment h ns name ≡ ok x
      → IsAt x.metadata ns name
  pub service :
      (h : List Call) (ns name : String) (x : Service)
      → api.service h ns name ≡ ok x
      → IsAt x.metadata ns name
  pub autoscaler :
      (h : List Call) (ns name : String) (x : HorizontalPodAutoscaler)
      → api.autoscaler h ns name ≡ ok x
      → IsAt x.metadata ns name
  pub monitor :
      (h : List Call) (ns name : String) (x : ServiceMonitor)
      → api.monitor h ns name ≡ ok x
      → IsAt x.metadata ns name

-- unstructured.SetNestedMap at "spec" leaves the metadata alone.
abbrev pub KeepsMetadata : Machinery → Type 0
KeepsMetadata lib =
    (x y : ServiceMonitor) (f : Fields) → lib.set_nested_spec x f ≡ ok y → y.metadata ≡ x.metadata

-- The objects of the cluster `name` in the namespace `ns`.
abbrev pub IsOwn : String → String → Object → Type 0
IsOwn ns name (cluster_body x) = IsAt x.metadata ns name
IsOwn ns name (pipeline_body x) = ⊥
IsOwn ns name (config_map_body x) =
    IsAt x.metadata ns (name <> "-pipelines") ⊎ IsAt x.metadata ns (name <> "-peer-config")
IsOwn ns name (deployment_body x) = IsAt x.metadata ns name
IsOwn ns name (service_body x) = IsAt x.metadata ns name ⊎ IsAt x.metadata ns (name <> "-headless")
IsOwn ns name (autoscaler_body x) = IsAt x.metadata ns name
IsOwn ns name (monitor_body x) = IsAt x.metadata ns name

-- A call that writes, if it writes, an object of the cluster.
abbrev pub IsWithin : String → String → Call → Type 0
IsWithin ns name (get _ _ _) = Unit
IsWithin ns name (list _ _) = Unit
IsWithin ns name (write _ body) = IsOwn ns name body

module _ (api : Server) (lib : Machinery) (keyed : IsKeyed api) (kept : KeepsMetadata lib)
    (c : Cluster) where
  abbrev Within : Call → Type 0
  Within = IsWithin c.metadata.namespace c.metadata.name

  resolve_config-Within : Makes Within (resolve_config api c)
  unfolding resolve_config
  resolve_config-Within = record { at = λ h k. ground arith }

  config_map-Within : Makes Within (reconcile_config_map api lib c)
  unfolding reconcile_config_map
  config_map-Within = record { at = λ h k. ground arith }

  peer_config-Within : Makes Within (reconcile_peer_config api lib c)
  unfolding reconcile_peer_config store_peer_config remove_peer_config
  peer_config-Within = record {
    at = λ h k.
        elim (Result-cases (api.config_map h c.metadata.namespace (peer_config_map_name c))) [
          | inl (x, f) ↦ ground (arith, keyed.config_map h _ _ x f)
          | inr (e, f) ↦ ground arith
        ];
  }

  update_deployment-metadata :
      (x d y : Deployment) → update_deployment c x d ≡ ok y → y.metadata ≡ x.metadata
  unfolding update_deployment
  update_deployment-metadata x d y e = ground arith

  deployment_found :
      (cfg : ResolvedConfig) (hash : String) (h : List Call) (x : Deployment)
      → All Within h
      → api.deployment h c.metadata.namespace c.metadata.name ≡ ok x
      → All Within (reconcile_deployment api lib c cfg hash h).1
  unfolding reconcile_deployment
  deployment_found cfg hash h x k f =
      elim (Result-cases
        (lib.set_controller_reference c.metadata (new_meta c.metadata.name c.metadata.namespace))) [
          | inr (e, failed) ↦ ground arith
          | inl (refs, own) ↦
              let m = record (new_meta c.metadata.name c.metadata.namespace) {
                owner_references = refs;
              } in
              elim (Result-cases (update_deployment c x (desired_deployment m c cfg hash))) [
                | inr (e, failed) ↦ ground arith
                | inl (y, made) ↦ ground (
                  arith,
                  keyed.deployment h _ _ x f,
                  update_deployment-metadata x (desired_deployment m c cfg hash) y made,
                )
              ]
        ]

  deployment-Within :
      (cfg : ResolvedConfig) (hash : String)
      → Makes Within (reconcile_deployment api lib c cfg hash)
  unfolding reconcile_deployment desired_deployment
  deployment-Within cfg hash = record {
    at = λ h k. elim (Result-cases (api.deployment h c.metadata.namespace c.metadata.name)) [
      | inl (x, f) ↦ deployment_found cfg hash h x k f
      | inr (e, f) ↦ ground arith
    ];
  }

  service-Within : Makes Within (reconcile_service api lib c)
  unfolding reconcile_service
  service-Within = record {
    at = λ h k. elim (Result-cases (api.service h c.metadata.namespace c.metadata.name)) [
      | inl (x, f) ↦ ground (arith, keyed.service h _ _ x f)
      | inr (e, f) ↦ ground arith
    ];
  }

  headless_service-Within : Makes Within (reconcile_headless_service api lib c)
  unfolding reconcile_headless_service
  headless_service-Within = record {
    at = λ h k. elim (Result-cases (api.service h c.metadata.namespace (headless_service_name c))) [
      | inl (x, f) ↦ ground (arith, keyed.service h _ _ x f)
      | inr (e, f) ↦ ground arith
    ];
  }

  hpa-Within : Makes Within (reconcile_hpa api lib c)
  unfolding reconcile_hpa store_autoscaler remove_autoscaler
  hpa-Within = record {
    at = λ h k. elim (Result-cases (api.autoscaler h c.metadata.namespace c.metadata.name)) [
      | inl (x, f) ↦ ground (arith, keyed.autoscaler h _ _ x f)
      | inr (e, f) ↦ ground arith
    ];
  }

  service_monitor-Within : Makes Within (reconcile_service_monitor api lib c)
  unfolding reconcile_service_monitor settle_monitor store_monitor remove_monitor
  service_monitor-Within = record {
    at = λ h k. elim (Result-cases (api.monitor h c.metadata.namespace c.metadata.name)) [
      | inl (x, f) ↦ elim (Result-cases (lib.set_nested_spec x (desired_monitor_spec c))) [
        | inl (y, made) ↦
            ground (arith, keyed.monitor h _ _ x f, kept x y (desired_monitor_spec c) made)
        | inr (e, failed) ↦ ground (arith, keyed.monitor h _ _ x f)
      ]
      | inr (e, f) ↦
          elim (Result-cases (lib.set_nested_spec (bare_monitor c) (desired_monitor_spec c))) [
            | inl (y, made) ↦ ground (arith, kept (bare_monitor c) y (desired_monitor_spec c) made)
            | inr (x, failed) ↦ ground arith
          ]
    ];
  }

  status-Within : Makes Within (reconcile_status lib api c)
  unfolding reconcile_status
  status-Within = record { at = λ h k. ground arith }

-- Where the server returns objects under the keys asked for and the library leaves metadata alone, a
-- reconciliation of the cluster `name` in the namespace `ns` writes only objects in that namespace: the
-- cluster itself, its Deployment, autoscaler and ServiceMonitor, which bear its name, the ConfigMaps
-- `name-pipelines` and `name-peer-config`, and the Services `name` and `name-headless`, if the calls
-- before do so.
pub reconcile-IsWithin :
    (api : Server) (lib : Machinery) (ns name : String) (h : List Call)
    → IsKeyed api
    → KeepsMetadata lib
    → All (IsWithin ns name) h
    → All (IsWithin ns name) (reconcile api lib ns name h).1
reconcile-IsWithin api lib ns name h keyed kept k =
    reconcile-Makes api lib (IsWithin ns name) ns name h tt
      (λ c found.
        let (same_ns, same_name) = keyed.cluster h ns name c found in
        subst (λ n. Makes (IsWithin n name) (reconcile_cluster api lib c)) same_ns
          (subst (λ n. Makes (IsWithin c.metadata.namespace n) (reconcile_cluster api lib c))
            same_name
            (reconcile_cluster-Makes api lib (IsWithin c.metadata.namespace c.metadata.name) c
              (record {
                resolves = resolve_config-Within api lib keyed kept c;
                config_map = config_map-Within api lib keyed kept c;
                peer_config = peer_config-Within api lib keyed kept c;
                deployment = deployment-Within api lib keyed kept c;
                service = service-Within api lib keyed kept c;
                headless_service = headless_service-Within api lib keyed kept c;
                service_monitor = service_monitor-Within api lib keyed kept c;
                hpa = hpa-Within api lib keyed kept c;
                status = status-Within api lib keyed kept c;
              }))))
      k
