-- ===== src/Manager/Owned.antt =====
-- The objects that a reconciliation of a cluster creates come back to it as events: each is owned by the
-- cluster, and of a kind that the controller is registered for.
use opensearch_dataprepper_k.Common.{
  String, ℕ, ◌≡◌, ◌⊎◌, inl, inr, Bool, true, any, List, All, nat_eq, ◌==◌, arith,
}
use opensearch_dataprepper_k.Kube.Result.{Error, ok, err, Result-cases}
use opensearch_dataprepper_k.Kube.Objects.{ObjectMeta, OwnerReference}
use opensearch_dataprepper_k.Kube.Client.{
  Server, Machinery, Kind, clusters, classes, pipelines, config_maps, deployments, services,
  autoscalers, monitors, pods, Call, get, list, write, create, update, delete, update_status,
  Object, kind_of, cluster_body, pipeline_body, config_map_body, deployment_body, service_body,
  autoscaler_body, monitor_body,
}
use opensearch_dataprepper_k.Kube.Makes.{Makes}
use opensearch_dataprepper_k.Api.{Cluster}
use opensearch_dataprepper_k.ClusterController.Config.{ResolvedConfig, resolve_config}
use opensearch_dataprepper_k.ClusterController.ConfigMaps.{
  new_meta, pipelines_config_map_name, peer_config_map_name, headless_service_name,
  reconcile_config_map, store_peer_config, remove_peer_config, reconcile_peer_config,
}
use opensearch_dataprepper_k.ClusterController.Deployments.{
  desired_deployment, reconcile_deployment,
}
use opensearch_dataprepper_k.ClusterController.Services.{
  reconcile_service, reconcile_headless_service,
}
use opensearch_dataprepper_k.ClusterController.Autoscaling.{
  reconcile_hpa, store_autoscaler, remove_autoscaler,
}
use opensearch_dataprepper_k.ClusterController.Monitoring.{
  reconcile_service_monitor, settle_monitor, bare_monitor, desired_monitor_spec, store_monitor,
  remove_monitor,
}
use opensearch_dataprepper_k.ClusterController.Status.{reconcile_status}
use opensearch_dataprepper_k.ClusterController.Reconcile.{reconcile_cluster}
use opensearch_dataprepper_k.ClusterController.Calls.{reconcile_cluster-Makes}
use opensearch_dataprepper_k.Manager.Registration.{Controller, cluster_controller}

abbrev metadata_of : Object → ObjectMeta
metadata_of (cluster_body x) = x.metadata
metadata_of (pipeline_body x) = x.metadata
metadata_of (config_map_body x) = x.metadata
metadata_of (deployment_body x) = x.metadata
metadata_of (service_body x) = x.metadata
metadata_of (autoscaler_body x) = x.metadata
metadata_of (monitor_body x) = x.metadata

abbrev number : Kind → ℕ
number clusters = 0
number classes = 1
number pipelines = 2
number config_maps = 3
number deployments = 4
number services = 5
number autoscalers = 6
number monitors = 7
number pods = 8

abbrev pub owns_kind : Controller → Kind → Bool
owns_kind ctl k = any (λ j. nat_eq (number j) (number k)) ctl.owns

abbrev pub names_owner : ObjectMeta → List OwnerReference → Bool
names_owner owner = any λ r. r.uid == owner.uid

-- SetControllerReference adds a reference to the owner.
abbrev pub AddsOwner : Machinery → Type 0
AddsOwner lib =
    (owner m : ObjectMeta) (refs : List OwnerReference)
    → lib.set_controller_reference owner m ≡ ok refs
    → names_owner owner refs ≡ true

module _ (api : Server) (lib : Machinery) (c : Cluster) where
  -- An object that the cluster owns, of a kind whose events the controller maps to owners.
  abbrev ComesBack : Object → Type 0
  ComesBack body =
      (names_owner c.metadata (metadata_of body).owner_references ≡ true)
      × ((owns_kind (cluster_controller api lib) (kind_of body) ≡ true) ⊎ (kind_of body ≡ monitors))

  abbrev pub CreatesOwned : Call → Type 0
  CreatesOwned (get _ _ _) = Unit
  CreatesOwned (list _ _) = Unit
  CreatesOwned (write create body) = ComesBack body
  CreatesOwned (write update _) = Unit
  CreatesOwned (write delete _) = Unit
  CreatesOwned (write update_status _) = Unit

  resolve_config-CreatesOwned : Makes CreatesOwned (resolve_config api c)
  unfolding resolve_config
  resolve_config-CreatesOwned = record { at = λ h k. ground arith }

  module _ (adds : AddsOwner lib) where
    references :
        (m : ObjectMeta)
        → ((refs : List OwnerReference) × (lib.set_controller_reference c.metadata m ≡ ok refs))
          ⊎ ((e : Error) × (lib.set_controller_reference c.metadata m ≡ err e))
    references m = Result-cases (lib.set_controller_reference c.metadata m)

    abbrev own_meta : String → ObjectMeta
    own_meta name = new_meta name c.metadata.namespace

    config_map-CreatesOwned : Makes CreatesOwned (reconcile_config_map api lib c)
    unfolding reconcile_config_map cluster_controller
    config_map-CreatesOwned = record {
      at = λ h k. elim (references (own_meta (pipelines_config_map_name c))) [
        | inl (refs, e) ↦ ground (arith, adds _ _ _ e)
        | inr (x, e) ↦ ground arith
      ];
    }

    peer_config-CreatesOwned : Makes CreatesOwned (reconcile_peer_config api lib c)
    unfolding reconcile_peer_config store_peer_config remove_peer_config cluster_controller
    peer_config-CreatesOwned = record {
      at = λ h k. elim (references (own_meta (peer_config_map_name c))) [
        | inl (refs, e) ↦ ground (arith, adds _ _ _ e)
        | inr (x, e) ↦ ground arith
      ];
    }

    deployment-CreatesOwned :
        (cfg : ResolvedConfig) (hash : String)
        → Makes CreatesOwned (reconcile_deployment api lib c cfg hash)
    unfolding reconcile_deployment desired_deployment cluster_controller
    deployment-CreatesOwned cfg hash = record {
      at = λ h k. elim (references (own_meta c.metadata.name)) [
        | inl (refs, e) ↦ ground (arith, adds _ _ _ e)
        | inr (x, e) ↦ ground arith
      ];
    }

    service-CreatesOwned : Makes CreatesOwned (reconcile_service api lib c)
    unfolding reconcile_service cluster_controller
    service-CreatesOwned = record {
      at = λ h k. elim (references (own_meta c.metadata.name)) [
        | inl (refs, e) ↦ ground (arith, adds _ _ _ e)
        | inr (x, e) ↦ ground arith
      ];
    }

    headless_service-CreatesOwned : Makes CreatesOwned (reconcile_headless_service api lib c)
    unfolding reconcile_headless_service cluster_controller
    headless_service-CreatesOwned = record {
      at = λ h k. elim (references (own_meta (headless_service_name c))) [
        | inl (refs, e) ↦ ground (arith, adds _ _ _ e)
        | inr (x, e) ↦ ground arith
      ];
    }

    hpa-CreatesOwned : Makes CreatesOwned (reconcile_hpa api lib c)
    unfolding reconcile_hpa store_autoscaler remove_autoscaler cluster_controller
    hpa-CreatesOwned = record {
      at = λ h k. elim (references (own_meta c.metadata.name)) [
        | inl (refs, e) ↦ ground (arith, adds _ _ _ e)
        | inr (x, e) ↦ ground arith
      ];
    }

    service_monitor-CreatesOwned : Makes CreatesOwned (reconcile_service_monitor api lib c)
    unfolding reconcile_service_monitor settle_monitor store_monitor remove_monitor
    service_monitor-CreatesOwned = record {
      at = λ h k.
          elim (Result-cases (lib.set_nested_spec (bare_monitor c) (desired_monitor_spec c))) [
            | inr (x, e) ↦ ground arith
            | inl (desired, made) ↦ elim (references desired.metadata) [
              | inl (refs, e) ↦ ground (arith, adds _ _ _ e)
              | inr (x, e) ↦ ground arith
            ]
          ];
    }

    status-CreatesOwned : Makes CreatesOwned (reconcile_status lib api c)
    unfolding reconcile_status
    status-CreatesOwned = record { at = λ h k. ground arith }

    -- Where ctrl.SetControllerReference adds a reference to the owner, every object that a reconciliation
    -- of a cluster creates has a reference to the cluster, and is of a kind that the controller is
    -- registered to be told of by way of such references, or a ServiceMonitor, if the calls before are so.
    pub reconcile_cluster-CreatesOwned :
        (h : List Call) → All CreatesOwned h → All CreatesOwned (reconcile_cluster api lib c h).1
    reconcile_cluster-CreatesOwned =
        (reconcile_cluster-Makes api lib CreatesOwned c (record {
          resolves = resolve_config-CreatesOwned;
          config_map = config_map-CreatesOwned;
          peer_config = peer_config-CreatesOwned;
          deployment = deployment-CreatesOwned;
          service = service-CreatesOwned;
          headless_service = headless_service-CreatesOwned;
          service_monitor = service_monitor-CreatesOwned;
          hpa = hpa-CreatesOwned;
          status = status-CreatesOwned;
        })).at
