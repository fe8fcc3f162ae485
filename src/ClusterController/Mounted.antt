-- ===== src/ClusterController/Mounted.antt =====
-- The ConfigMap that the Deployment mounts as its server configuration.
use Prim.Native.String.{slice}
use opensearch_dataprepper_k.Common.{
  String, ◌≡◌, refl, ◌≢◌, ◌⊎◌, inl, inr, List, [], ◌∷◌, All, ◌==◌, ◌<>◌, eq_iff, arith, Bool-cases,
}
use opensearch_dataprepper_k.Common.Maps.{lookup, value}
use opensearch_dataprepper_k.Go.Sha256.{sha256_hex}
use opensearch_dataprepper_k.Kube.Result.{ok, Result-cases}
use opensearch_dataprepper_k.Kube.Objects.{ConfigMap}
use opensearch_dataprepper_k.Kube.Client.{
  Server, Machinery, Call, get, config_maps, write, create, update, delete, config_map_body,
}
use opensearch_dataprepper_k.Kube.Makes.{Makes}
use opensearch_dataprepper_k.Api.{Cluster}
use opensearch_dataprepper_k.ClusterController.Config.{ResolvedConfig, resolve_config}
use opensearch_dataprepper_k.ClusterController.ConfigMaps.{
  new_meta, peer_config_map_name, peer_config_key, render_peer_config, reconcile_config_map,
  store_peer_config, remove_peer_config, reconcile_peer_config,
}
use opensearch_dataprepper_k.ClusterController.Deployments.{
  server_config_map_name, reconcile_deployment,
}
use opensearch_dataprepper_k.ClusterController.Services.{
  reconcile_service, reconcile_headless_service,
}
use opensearch_dataprepper_k.ClusterController.Autoscaling.{
  reconcile_hpa, store_autoscaler, remove_autoscaler,
}
use opensearch_dataprepper_k.ClusterController.Monitoring.{
  reconcile_service_monitor, settle_monitor, store_monitor, remove_monitor,
}
use opensearch_dataprepper_k.ClusterController.Status.{reconcile_status}
use opensearch_dataprepper_k.ClusterController.Reconcile.{reconcile_cluster}
use opensearch_dataprepper_k.ClusterController.Calls.{reconcile_cluster-Makes}
use opensearch_dataprepper_k.ClusterController.Scope.{IsAt, IsKeyed}

-- The ConfigMap <cluster>-peer-config of the cluster's namespace after the step, with the entry that the
-- Deployment mounts: read with it, or read and updated to it, or created with it under that key.
abbrev pub IsStored : Server → Cluster → List Call → List Call → Type 0
IsStored api c h h' =
    let ns = c.metadata.namespace in
    let name = c.metadata.name <> "-peer-config" in
    let asked = get config_maps ns name ∷ h in
    (cm : ConfigMap) × (value cm.entries "data-prepper-config.yaml" ≡ render_peer_config c)
    × (((api.config_map h ns name ≡ ok cm) × (h' ≡ asked))
        ⊎ (((x : ConfigMap) × (api.config_map h ns name ≡ ok x) × (cm.metadata ≡ x.metadata))
            × (h' ≡ write update (config_map_body cm) ∷ asked))
        ⊎ ((IsAt cm.metadata ns name) × (h' ≡ write create (config_map_body cm) ∷ asked)))

content_stored :
    (c : Cluster) (cm : ConfigMap)
    → cm.entries ≡ (peer_config_key, render_peer_config c) ∷ []
    → value cm.entries peer_config_key ≡ render_peer_config c
unfolding lookup
content_stored c cm e = rw e

-- After the step for the peer configuration of a cluster without spec.serverConfigMap, if it succeeds,
-- the hash is that of the content for the cluster, and the ConfigMap <cluster>-peer-config of the
-- cluster's namespace holds that content: it was read with it and nothing is written, or the ConfigMap that
-- was read is updated to it, or one of that name and namespace is created with it, by the step's only write.
pub peer_config-IsStored :
    (api : Server) (lib : Machinery) (c : Cluster) (h h' : List Call) (hash : String)
    → c.spec.server_config_map ≡ ""
    → reconcile_peer_config api lib c h ≡ (ok hash, h')
    → (hash ≡ slice (sha256_hex (render_peer_config c)) 0 16) × IsStored api c h h'
unfolding reconcile_peer_config store_peer_config
peer_config-IsStored api lib c h h' hash unset e =
    let m = new_meta (peer_config_map_name c) c.metadata.namespace in
    let content = render_peer_config c in
    let set = eq_iff c.spec.server_config_map "" in
    elim (Result-cases (lib.set_controller_reference c.metadata m)) [
      | inr (x, failed) ↦ absurd (ground arith)
      | inl (refs, own) ↦
          elim (Result-cases (api.config_map h c.metadata.namespace (peer_config_map_name c))) [
            | inl (cm, found) ↦ elim (Bool-cases (value cm.entries peer_config_key == content)) [
              | inl same ↦ (
                ground arith,
                (
                  cm,
                  (eq_iff (value cm.entries peer_config_key) content).0 same,
                  inl (found, ground arith),
                ),
              )
              | inr stale ↦
                  let next : ConfigMap = record cm { entries = (peer_config_key, content) ∷ [] } in
                  (
                    ground arith,
                    (next, content_stored c next refl, inr (inl ((cm, found, refl), ground arith))),
                  )
            ]
            | inr (x, missing) ↦
                let next : ConfigMap = record {
                  metadata = record m { owner_references = refs };
                  entries = (peer_config_key, content) ∷ [];
                } in
                (
                  ground arith,
                  (next, content_stored c next refl, inr (inr ((refl, refl), ground arith))),
                )
          ]
    ]

-- A call that does not delete the ConfigMap that the Deployment mounts.
abbrev pub LeavesMounted : Cluster → Call → Type 0
LeavesMounted c (write delete (config_map_body cm)) = cm.metadata.name ≢ server_config_map_name c
LeavesMounted c _ = Unit

module _ (api : Server) (lib : Machinery) (keyed : IsKeyed api) (c : Cluster)
    (other : c.spec.server_config_map ≢ peer_config_map_name c) where
  abbrev Leaves : Call → Type 0
  Leaves = LeavesMounted c

  resolve_config-Leaves : Makes Leaves (resolve_config api c)
  unfolding resolve_config
  resolve_config-Leaves = record { at = λ h k. ground arith }

  config_map-Leaves : Makes Leaves (reconcile_config_map api lib c)
  unfolding reconcile_config_map
  config_map-Leaves = record { at = λ h k. ground arith }

  peer_config-Leaves : Makes Leaves (reconcile_peer_config api lib c)
  unfolding reconcile_peer_config store_peer_config remove_peer_config server_config_map_name
  peer_config-Leaves = record {
    at = λ h k.
        elim (Result-cases (api.config_map h c.metadata.namespace (peer_config_map_name c))) [
          | inl (x, f) ↦ ground (arith, keyed.config_map h _ _ x f, other)
          | inr (e, f) ↦ ground arith
        ];
  }

  deployment-Leaves :
      (cfg : ResolvedConfig) (hash : String)
      → Makes Leaves (reconcile_deployment api lib c cfg hash)
  unfolding reconcile_deployment
  deployment-Leaves cfg hash = record { at = λ h k. ground arith }

  service-Leaves : Makes Leaves (reconcile_service api lib c)
  unfolding reconcile_service
  service-Leaves = record { at = λ h k. ground arith }

  headless_service-Leaves : Makes Leaves (reconcile_headless_service api lib c)
  unfolding reconcile_headless_service
  headless_service-Leaves = record { at = λ h k. ground arith }

  service_monitor-Leaves : Makes Leaves (reconcile_service_monitor api lib c)
  unfolding reconcile_service_monitor settle_monitor store_monitor remove_monitor
  service_monitor-Leaves = record { at = λ h k. ground arith }

  hpa-Leaves : Makes Leaves (reconcile_hpa api lib c)
  unfolding reconcile_hpa store_autoscaler remove_autoscaler
  hpa-Leaves = record { at = λ h k. ground arith }

  status-Leaves : Makes Leaves (reconcile_status lib api c)
  unfolding reconcile_status
  status-Leaves = record { at = λ h k. ground arith }

-- Where the server returns objects under the keys asked for, and spec.serverConfigMap does not name the
-- operator's own peer ConfigMap, no call of a reconciliation of the cluster deletes the ConfigMap that
-- the Deployment mounts as its server configuration, if no call before does.
pub reconcile_cluster-LeavesMounted :
    (api : Server) (lib : Machinery) (c : Cluster) (h : List Call)
    → IsKeyed api
    → c.spec.server_config_map ≢ peer_config_map_name c
    → All (LeavesMounted c) h
    → All (LeavesMounted c) (reconcile_cluster api lib c h).1
reconcile_cluster-LeavesMounted api lib c h keyed other k =
    (reconcile_cluster-Makes api lib (LeavesMounted c) c (record {
      resolves = resolve_config-Leaves api lib keyed c other;
      config_map = config_map-Leaves api lib keyed c other;
      peer_config = peer_config-Leaves api lib keyed c other;
      deployment = deployment-Leaves api lib keyed c other;
      service = service-Leaves api lib keyed c other;
      headless_service = headless_service-Leaves api lib keyed c other;
      service_monitor = service_monitor-Leaves api lib keyed c other;
      hpa = hpa-Leaves api lib keyed c other;
      status = status-Leaves api lib keyed c other;
    })).at
      h k
