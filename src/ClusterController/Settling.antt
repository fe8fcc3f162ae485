-- ===== src/ClusterController/Settling.antt =====
-- A reconciliation of a cluster whose objects are as an earlier one left them.
use opensearch_dataprepper_k.Common.{
  String, ◌≡◌, ◌≢◌, List, false, sym, ap, ◌∙◌, Bool-cases, refl, inl, inr, [], ◌∷◌, eq_iff, arith,
  Option-cases, subst,
}
use opensearch_dataprepper_k.Common.Maps.{value}
use opensearch_dataprepper_k.Kube.Objects.{Deployment, Service, ServicePort}
use opensearch_dataprepper_k.Kube.Client.{
  Server, Machinery, get, list, write, update, config_maps, deployments, services, autoscalers,
  monitors, pipelines, deployment_body, service_body,
}
use opensearch_dataprepper_k.Kube.Settles.{Settles, silent_then, then_silent, then_writes}
use opensearch_dataprepper_k.Api.{Cluster}
use opensearch_dataprepper_k.ClusterController.Config.{ResolvedConfig, resolve_config}
use opensearch_dataprepper_k.ClusterController.ConfigMaps.{
  new_meta, pipelines_config_map_name, peer_config_map_name, headless_service_name, peer_config_key,
  render_peer_config, reconcile_config_map, store_peer_config, reconcile_peer_config,
}
use opensearch_dataprepper_k.ClusterController.Deployments.{
  desired_deployment, reconcile_deployment,
}
use opensearch_dataprepper_k.ClusterController.Protocols.{
  with_protocols, filled_service, update-filled,
}
use opensearch_dataprepper_k.ClusterController.Defaulting.{ComparesPorts}
use opensearch_dataprepper_k.ClusterController.Services.{
  desired_ports, desired_selector, reconcile_service, reconcile_headless_service,
}
use opensearch_dataprepper_k.ClusterController.Autoscaling.{
  reconcile_hpa, store_autoscaler, remove_autoscaler,
}
use opensearch_dataprepper_k.ClusterController.Monitoring.{
  reconcile_service_monitor, settle_monitor, store_monitor, remove_monitor,
}
use opensearch_dataprepper_k.ClusterController.Status.{reconcile_status}
use opensearch_dataprepper_k.ClusterController.Reconcile.{reconcile_cluster}
use opensearch_dataprepper_k.ClusterController.InSync.{
  peer_hash, ns, name, resent_service, AutoscalerInSync, IsInSync,
}

abbrev first_protocol : List ServicePort → String
first_protocol [] = ""
first_protocol (p ∷ ps) = p.protocol

abbrev tcp : String
tcp = "TCP"

tcp_given : tcp ≢ ""
tcp_given e = cc

module _ (api : Server) (lib : Machinery) (c : Cluster) (cfg : ResolvedConfig) (w : Deployment)
    (y : Service) (compares : ComparesPorts lib) (sync : IsInSync api lib c cfg w y) where
  resolve_config-Settles : Settles (resolve_config api c) cfg []
  unfolding resolve_config
  resolve_config-Settles = record {
    at = λ h. ((resolve_config api c h).1, ground (arith, sync.config h), ground arith);
  }

  config_map-Settles : Settles (reconcile_config_map api lib c) tt []
  unfolding reconcile_config_map
  config_map-Settles = record {
    at = λ h.
        let (cm, found) = sync.pipelines_config h in
        (get config_maps (ns api lib c) (pipelines_config_map_name c) ∷ h, ground arith, refl);
  }

  peer_config-Settles : Settles (reconcile_peer_config api lib c) (peer_hash c) []
  unfolding reconcile_peer_config store_peer_config
  peer_config-Settles = record {
    at = λ h.
        let (cm, found, content) = sync.peer_config h in
        let (refs, owned) =
          sync.owner (new_meta (peer_config_map_name c) (ns api lib c)) refl refl in
        (
          get config_maps (ns api lib c) (peer_config_map_name c) ∷ h,
          ground (
            arith,
            sync.unset,
            eq_iff c.spec.server_config_map "",
            eq_iff (value cm.entries peer_config_key) (render_peer_config c),
          ),
          refl,
        );
  }

  deployment-Settles :
      (z : Deployment) × (with_protocols z ≡ with_protocols w)
      × Settles
          (reconcile_deployment api lib c cfg (peer_hash c))
          tt
          (write update (deployment_body z) ∷ [])
  unfolding reconcile_deployment
  deployment-Settles =
      let m = new_meta (name api lib c) (ns api lib c) in
      let (refs, owned) = sync.owner m refl refl in
      let wanted = desired_deployment (record m { owner_references = refs }) c cfg (peer_hash c) in
      let (before, made) = sync.updated (record m { owner_references = refs }) in
      let (z, again, same) = update-filled c before wanted w made in
      (
        z,
        same,
        record {
          at = λ h.
              let asked = get deployments (ns api lib c) (name api lib c) ∷ h in
              (
                write update (deployment_body z) ∷ asked,
                ground (
                  arith,
                  sync.deployment h,
                  again,
                  owned,
                  sync.accepted asked (deployment_body z),
                ),
                refl,
              );
        },
      )

  -- The filled-in ports are never the desired ones: that of the port "http" is not given.
  ports_differ : lib.equal_ports y.ports (desired_ports c) ≡ false
  unfolding desired_ports
  ports_differ = elim (Bool-cases (lib.equal_ports y.ports (desired_ports c))) [
    | inr differ ↦ differ
    | inl same ↦ absurd (
        tcp_given
          (ap first_protocol (sym sync.service_ports ∙ compares y.ports (desired_ports c) same)))
  ]

  -- What is sent of the Service fills in to the stored one.
  resent_same : filled_service (resent_service api lib c y) ≡ y
  resent_same =
      ap (λ l. record y { selector = desired_selector c; ports = l }) (sym sync.service_ports)
      ∙ ap (λ l. record y { selector = l }) (sym sync.service_selector)

  service-Settles :
      Settles
        (reconcile_service api lib c)
        tt
        (write update (service_body (resent_service api lib c y)) ∷ [])
  unfolding reconcile_service
  service-Settles = record {
    at = λ h.
        let (refs, owned) = sync.owner (new_meta (name api lib c) (ns api lib c)) refl refl in
        let asked = get services (ns api lib c) (name api lib c) ∷ h in
        (
          write update (service_body (resent_service api lib c y)) ∷ asked,
          ground (
            arith,
            sync.service h,
            ports_differ,
            owned,
            sync.accepted asked (service_body (resent_service api lib c y)),
          ),
          refl,
        );
  }

  headless_service-Settles : Settles (reconcile_headless_service api lib c) tt []
  unfolding reconcile_headless_service
  headless_service-Settles = record {
    at = λ h.
        let (s, found, ip, ready, selector) = sync.headless h in
        let (refs, owned) =
          sync.owner (new_meta (headless_service_name c) (ns api lib c)) refl refl in
        (
          get services (ns api lib c) (headless_service_name c) ∷ h,
          ground (arith, eq_iff s.cluster_ip "None"),
          refl,
        );
  }

  hpa-Settles : Settles (reconcile_hpa api lib c) tt []
  unfolding reconcile_hpa store_autoscaler remove_autoscaler
  hpa-Settles = record {
    at = λ h.
        let (refs, owned) = sync.owner (new_meta (name api lib c) (ns api lib c)) refl refl in
        let asked = get autoscalers (ns api lib c) (name api lib c) ∷ h in
        elim (Option-cases c.spec.autoscaling) [
          | inl unwanted ↦
              let (e, missing, gone) =
                subst (AutoscalerInSync api lib c) unwanted sync.autoscaler h in
              (asked, ground arith, refl)
          | inr (a, wanted) ↦
              let (a', found, same) = subst (AutoscalerInSync api lib c) wanted sync.autoscaler h in
              (asked, ground arith, refl)
        ];
  }

  service_monitor-Settles : Settles (reconcile_service_monitor api lib c) tt []
  unfolding reconcile_service_monitor settle_monitor store_monitor remove_monitor
  service_monitor-Settles = record {
    at = λ h.
        let asked = get monitors (ns api lib c) (name api lib c) ∷ h in
        elim (sync.monitor h) [
          | inl (unwanted, (e, missing, gone)) ↦ (asked, ground arith, refl)
          | inr (wanted, (s, desired, found, made, meta, same)) ↦
              let (refs, owned) = sync.owner desired.metadata (rw meta refl) (rw meta refl) in
              (asked, ground arith, refl)
        ];
  }

  status-Settles : Settles (reconcile_status lib api c) tt []
  unfolding reconcile_status
  status-Settles = record {
    at = λ h.
        let asked = get deployments (ns api lib c) (name api lib c) ∷ h in
        let (items, listed, same) = sync.status asked in
        (list pipelines (ns api lib c) ∷ asked, ground (arith, sync.deployment h), refl);
  }

-- Where DeepEqual holds of equal ports only, SetControllerReference succeeds on new objects, the server takes
-- updates, and every object of a cluster without spec.serverConfigMap is what the server makes of what is
-- wanted, the protocols of ports filled in, a reconciliation of the cluster succeeds whatever was
-- called before, and makes two writes: it sends the Deployment, and then the Service, each as
-- something that the server fills in to what it has stored already.
pub reconcile_cluster-Settles :
    (api : Server) (lib : Machinery) (c : Cluster) (cfg : ResolvedConfig) (w : Deployment)
    (y : Service)
    → ComparesPorts lib
    → IsInSync api lib c cfg w y
    → (z : Deployment) × (with_protocols z ≡ with_protocols w)
      × (filled_service (resent_service api lib c y) ≡ y)
      × Settles (reconcile_cluster api lib c) tt (
          write update (service_body (resent_service api lib c y))
          ∷ write update (deployment_body z)
          ∷ [])
unfolding reconcile_cluster
reconcile_cluster-Settles api lib c cfg w y compares sync =
    let (z, same, deployment) = deployment-Settles api lib c cfg w y compares sync in
    (
      z,
      same,
      resent_same api lib c cfg w y compares sync,
      silent_then _ _ _ (resolve_config-Settles api lib c cfg w y compares sync) (
          silent_then _ _ _ (config_map-Settles api lib c cfg w y compares sync) (
            silent_then _ _ _ (peer_config-Settles api lib c cfg w y compares sync) (
              then_writes _ _ _ _ deployment (
                then_silent _ _ _ (service-Settles api lib c cfg w y compares sync) (
                  silent_then _ _ _ (headless_service-Settles api lib c cfg w y compares sync) (
                    silent_then _ _ _ (service_monitor-Settles api lib c cfg w y compares sync) (
                      silent_then _ _ _ (hpa-Settles api lib c cfg w y compares sync)
                        (status-Settles api lib c cfg w y compares sync)))))))),
    )
