-- ===== src/ClusterController/Autoscaled.antt =====
-- The status of a cluster whose Deployment an autoscaler has scaled down.
use opensearch_dataprepper_k.Common.{
  ℕ, ◌<◌, ◌≡◌, ◌∙◌, inl, inr, int_eq_refl, List, some, false, pos, arith,
}
use opensearch_dataprepper_k.Kube.Result.{ok}
use opensearch_dataprepper_k.Kube.Objects.{Deployment}
use opensearch_dataprepper_k.Kube.Client.{Machinery}
use opensearch_dataprepper_k.Api.{Cluster, ClusterPhase, Pipeline, AutoscalingSpec}
use opensearch_dataprepper_k.ClusterController.Deployments.{update_deployment}
use opensearch_dataprepper_k.ClusterController.Rollout.{update_preserves}
use opensearch_dataprepper_k.ClusterController.Status.{
  is_ready, is_degraded, is_progressing, cluster_phase, desired_status,
}

-- Each of the `n` replicas that the Deployment wants is updated and ready, and its status is of its
-- generation.
pub record IsRolledOut (n : ℕ) (d : Deployment) : Type 0 where
  pub wanted : d.replicas ≡ some (pos n)
  pub ready : d.status.ready_replicas ≡ pos n
  pub updated : d.status.updated_replicas ≡ pos n
  pub unavailable : d.status.unavailable_replicas ≡ pos 0
  pub observed : d.status.observed_generation ≡ d.metadata.generation

rolled_out_pends :
    (lib : Machinery) (c : Cluster) (d : Deployment) (ps : List Pipeline) (n r : ℕ)
    → c.spec.replicas ≡ pos r
    → n < r
    → IsRolledOut n d
    → ((desired_status lib c d ps).phase ≡ ClusterPhase.pending) × (is_progressing d ≡ false)
unfolding desired_status is_ready is_degraded is_progressing cluster_phase
rolled_out_pends lib c d ps n r spec less out = (
  ground (arith, less, spec, out.ready, out.unavailable),
  ground (arith, out.wanted, out.updated, out.observed, int_eq_refl d.metadata.generation),
)

-- Where an autoscaler has scaled the Deployment of a cluster to fewer replicas than spec.replicas, and all of
-- them are updated and ready, an update of the Deployment leaves their number alone, and the
-- status reports the cluster as pending, though nothing is progressing.
pub scaled_down_pends :
    (lib : Machinery) (c : Cluster) (a : AutoscalingSpec) (x desired y : Deployment)
    (ps : List Pipeline) (n r : ℕ)
    → c.spec.autoscaling ≡ some a
    → c.spec.replicas ≡ pos r
    → n < r
    → IsRolledOut n x
    → update_deployment c x desired ≡ ok y
    → (y.replicas ≡ some (pos n))
      × ((desired_status lib c y ps).phase ≡ ClusterPhase.pending)
      × (is_progressing y ≡ false)
scaled_down_pends lib c a x desired y ps n r auto spec less out made =
    let (metadata, _, status, _, _, replicas) = update_preserves c x desired y made in
    let kept : y.replicas ≡ x.replicas = elim replicas [
      | inl fixed ↦ absurd (ground arith)
      | inr same ↦ same
    ] in
    let out' : IsRolledOut n y = record {
      wanted = kept ∙ out.wanted;
      ready = rw status out.ready;
      updated = rw status out.updated;
      unavailable = rw status out.unavailable;
      observed = rw (status, metadata) out.observed;
    } in
    let (pends, still) = rolled_out_pends lib c y ps n r spec less out' in
    (out'.wanted, pends, still)
