-- ===== src/ClusterController/Stored.antt =====
-- The Deployment that a reconciliation stores, created or updated.
use opensearch_dataprepper_k.Common.{
  String, ◌≡◌, refl, ◌∙◌, ◌≢◌, ◌⊎◌, inl, inr, List, [], ◌∷◌, none, some, Bool-cases, eq_iff,
  eq_refl, eq-false_of_ne, arith,
}
use opensearch_dataprepper_k.Common.Maps.{value, lookup-insert, StringMap}
use opensearch_dataprepper_k.Kube.Result.{ok, Result-cases}
use opensearch_dataprepper_k.Kube.Objects.{Container, Deployment, ObjectMeta}
use opensearch_dataprepper_k.Kube.Client.{
  Server, Machinery, Call, write, create, update, deployment_body, writes,
}
use opensearch_dataprepper_k.Api.{Cluster}
use opensearch_dataprepper_k.ClusterController.Config.{ResolvedConfig, merge_string_map}
use opensearch_dataprepper_k.ClusterController.ConfigMaps.{new_meta, peer_config_hash_annotation}
use opensearch_dataprepper_k.ClusterController.Deployments.{
  desired_labels, desired_volumes, desired_annotations, desired_container, desired_template,
  desired_deployment, update_container, update_containers, updated_annotations, updated_replicas,
  update_deployment, reconcile_deployment,
}
use opensearch_dataprepper_k.PipelineController.Rebuild.{pipelines_hash_annotation}
use opensearch_dataprepper_k.ClusterController.Mounts.{
  MountsConfiguration, desired-MountsConfiguration,
}
use opensearch_dataprepper_k.ClusterController.Rollout.{update_preserves}
use opensearch_dataprepper_k.ClusterController.Scope.{IsAt}

-- The Deployment runs the resolved configuration: its first container has the image, the resources and the
-- environment, it finds the configuration of the cluster where Data Prepper reads it, the pods bear the
-- hash of the server configuration, and they are scheduled as resolved.
pub record RunsResolved (c : Cluster) (cfg : ResolvedConfig) (peer_hash : String) (d : Deployment)
    : Type 0 where
  pub first : Container
  pub others : List Container
  pub containers : d.template.containers ≡ first ∷ others
  pub image : first.image ≡ cfg.image
  pub resources : first.resources ≡ cfg.resources
  pub environment : first.env_from ≡ cfg.env_from
  pub mounts : MountsConfiguration c first.volume_mounts d.template.volumes
  pub replicas : c.spec.autoscaling ≡ none → d.replicas ≡ some c.spec.replicas
  pub selector : d.template.node_selector ≡ cfg.node_selector
  pub tolerations : d.template.tolerations ≡ cfg.tolerations
  pub hash : peer_hash ≢ "" → value d.template.annotations peer_config_hash_annotation ≡ peer_hash

module _ (c : Cluster) (cfg : ResolvedConfig) (peer_hash : String) where
  desired_hash :
      peer_hash ≢ ""
      → value (desired_annotations cfg peer_hash) peer_config_hash_annotation ≡ peer_hash
  unfolding desired_annotations
  desired_hash set = ground (
    arith,
    set,
    eq_iff peer_hash "",
    eq_refl peer_config_hash_annotation,
    lookup-insert peer_config_hash_annotation peer_config_hash_annotation peer_hash
        (merge_string_map cfg.pod_annotations []),
  )

  -- The hash of the pipelines stands under another key.
  updated_hash :
      (existing desired : StringMap)
      → value (updated_annotations existing desired) peer_config_hash_annotation
        ≡ value desired peer_config_hash_annotation
  unfolding updated_annotations
  updated_hash existing desired = ground (
    arith,
    eq-false_of_ne pipelines_hash_annotation peer_config_hash_annotation (λ e. cc),
    lookup-insert pipelines_hash_annotation peer_config_hash_annotation
        (value existing pipelines_hash_annotation) desired,
  )

  desired-RunsResolved :
      (m : ObjectMeta) → RunsResolved c cfg peer_hash (desired_deployment m c cfg peer_hash)
  unfolding desired_deployment desired_template desired_container
  desired-RunsResolved m = record {
    first = desired_container c cfg;
    others = [];
    containers = refl;
    image = refl;
    resources = refl;
    environment = refl;
    mounts = desired-MountsConfiguration c;
    replicas = λ _. refl;
    selector = refl;
    tolerations = refl;
    hash = desired_hash;
  }

  update_containers-first :
      (cs updated : List Container)
      → update_containers cs (desired_container c cfg ∷ []) ≡ ok updated
      → (first : Container) × (others : List Container) × (updated
          ≡ update_container first (desired_container c cfg) ∷ others)
  unfolding update_containers
  update_containers-first [] updated e = absurd (ground arith)
  update_containers-first (first ∷ others) updated e = (first, others, ground arith)

  -- An updated Deployment, once its containers are.
  abbrev rolled : Deployment → List Container → Deployment
  rolled existing containers = record existing {
    replicas = updated_replicas c.spec.autoscaling existing.replicas (some c.spec.replicas);
    template = record (existing.template) {
      labels = desired_labels c cfg;
      annotations =
          updated_annotations existing.template.annotations (desired_annotations cfg peer_hash);
      node_selector = cfg.node_selector;
      tolerations = cfg.tolerations;
      containers = containers;
      volumes = desired_volumes c;
    };
  }

  rolled-RunsResolved :
      (existing : Deployment) (first : Container) (others : List Container)
      → RunsResolved c cfg peer_hash
          (rolled existing (update_container first (desired_container c cfg) ∷ others))
  unfolding update_container desired_container updated_replicas
  rolled-RunsResolved existing first others = record {
    first = update_container first (desired_container c cfg);
    others = others;
    containers = refl;
    image = refl;
    resources = refl;
    environment = refl;
    mounts = desired-MountsConfiguration c;
    replicas = λ fixed. rw (fixed, updated_replicas) refl;
    selector = refl;
    tolerations = refl;
    hash = λ set.
        updated_hash existing.template.annotations (desired_annotations cfg peer_hash)
        ∙ desired_hash set;
  }

  update-rolled :
      (m : ObjectMeta) (existing d : Deployment)
      → update_deployment c existing (desired_deployment m c cfg peer_hash) ≡ ok d
      → (containers : List Container) × (update_containers existing.template.containers
            (desired_container c cfg ∷ [])
          ≡ ok containers)
        × (d ≡ rolled existing containers)
  unfolding update_deployment desired_deployment desired_template
  update-rolled m existing d e =
      elim (Result-cases
        (update_containers existing.template.containers (desired_container c cfg ∷ []))) [
          | inr (x, failed) ↦ absurd (ground arith)
          | inl (containers, made) ↦ (containers, made, ground arith)
        ]

  update-RunsResolved :
      (m : ObjectMeta) (existing d : Deployment)
      → update_deployment c existing (desired_deployment m c cfg peer_hash) ≡ ok d
      → RunsResolved c cfg peer_hash d
  update-RunsResolved m existing d e =
      let (containers, made, same) = update-rolled m existing d e in
      let (first, others, parts) =
        update_containers-first existing.template.containers containers made in
      rw (same, parts) (rolled-RunsResolved existing first others)

-- The only write is that of `d`: created under the cluster's name and namespace, or updated, with the
-- metadata of the Deployment that is read there.
abbrev pub IsWritten : Server → Cluster → List Call → List Call → Deployment → Type 0
IsWritten api c h h' d =
    (IsAt d.metadata c.metadata.namespace c.metadata.name
      × (writes h' ≡ write create (deployment_body d) ∷ writes h))
    ⊎ ((x : Deployment) × (api.deployment h c.metadata.namespace c.metadata.name ≡ ok x)
        × (d.metadata ≡ x.metadata)
        × (writes h' ≡ write update (deployment_body d) ∷ writes h))

-- The step for the Deployment, if it succeeds, has made just one write: it has created a Deployment of the
-- cluster's name and namespace, or updated the one that it read under them, to one whose first container
-- has the resolved image, resources and environment and finds, at the paths that Data Prepper reads,
-- the cluster's pipelines ConfigMap, the file data-prepper-config.yaml of the ConfigMap that
-- spec.serverConfigMap names, or else of the cluster's own, and the assets, if a ConfigMap of them is named.
-- Behind the operator's own mounts and volumes stand the cluster's extra ones. The Deployment has the
-- resolved node selector and tolerations, the cluster's replicas unless that is autoscaled, and bears the
-- given hash of the peer configuration, if it is not empty.
pub stored-RunsResolved :
    (api : Server) (lib : Machinery) (c : Cluster) (cfg : ResolvedConfig) (peer_hash : String)
    (h h' : List Call)
    → reconcile_deployment api lib c cfg peer_hash h ≡ (ok tt, h')
    → (d : Deployment) × RunsResolved c cfg peer_hash d × IsWritten api c h h' d
unfolding reconcile_deployment desired_deployment
stored-RunsResolved api lib c cfg peer_hash h h' e =
    elim (Result-cases
      (lib.set_controller_reference c.metadata (new_meta c.metadata.name c.metadata.namespace))) [
        | inr (x, failed) ↦ absurd (ground arith)
        | inl (refs, owned) ↦
            let m = record (new_meta c.metadata.name c.metadata.namespace) {
              owner_references = refs;
            } in
            elim (Result-cases (api.deployment h c.metadata.namespace c.metadata.name)) [
              | inr (x, failed) ↦ elim (Bool-cases (lib.is_not_found x)) [
                | inl missing ↦ (
                  desired_deployment m c cfg peer_hash,
                  desired-RunsResolved c cfg peer_hash m,
                  inl ((refl, refl), ground arith),
                )
                | inr other ↦ absurd (ground arith)
              ]
              | inl (existing, found) ↦
                  elim (Result-cases
                    (update_deployment c existing (desired_deployment m c cfg peer_hash))) [
                      | inr (x, failed) ↦ absurd (ground arith)
                      | inl (d, made) ↦ (
                        d,
                        update-RunsResolved c cfg peer_hash m existing d made,
                        inr (
                          existing,
                          found,
                          (update_preserves c existing _ d made).0,
                          ground arith,
                        ),
                      )
                    ]
            ]
      ]
