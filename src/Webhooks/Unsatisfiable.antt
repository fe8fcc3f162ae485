-- ===== src/Webhooks/Unsatisfiable.antt =====
-- A cluster with an autoscaler that the server refuses.
use opensearch_dataprepper_k.Common.{
  ℕ, ◌<◌, ◌≡◌, ◌≢◌, some, false, pos, true, int_lt, List, ◌∷◌, inl, inr, eq_iff, arith,
}
use opensearch_dataprepper_k.Kube.Result.{Error, ok, err, Result-cases}
use opensearch_dataprepper_k.Kube.Objects.{HorizontalPodAutoscaler}
use opensearch_dataprepper_k.Kube.Client.{
  Server, Machinery, Call, create, autoscaler_body, get, autoscalers,
}
use opensearch_dataprepper_k.Api.{Cluster, AutoscalingSpec}
use opensearch_dataprepper_k.ClusterController.ConfigMaps.{new_meta}
use opensearch_dataprepper_k.ClusterController.Autoscaling.{
  desired_autoscaler_spec, reconcile_hpa, store_autoscaler,
}
use opensearch_dataprepper_k.Webhooks.ClusterValidator.{validate, check_class, check_replicas}

-- The server refuses to create an autoscaler whose minimum is above its maximum.
abbrev pub RefusesInverted : Server → Type 0
RefusesInverted api =
    (h : List Call) (x : HorizontalPodAutoscaler) (low high : ℕ)
    → x.spec.min_replicas ≡ some (pos low)
    → x.spec.max_replicas ≡ pos high
    → high < low
    → (e : Error) × (api.written h create (autoscaler_body x) ≡ err e)

-- Where the server refuses to create an autoscaler whose minimum is above its maximum, the webhook admits a cluster that
-- asks for one, if it has an image, names no class and its replicas are at most the maximum, and the
-- step for the autoscaler fails as long as there is none.
pub inverted_bounds_admitted :
    (api : Server) (lib : Machinery) (c : Cluster) (a : AutoscalingSpec) (low high : ℕ)
    (h h' : List Call) (missing : Error)
    → c.spec.autoscaling ≡ some a
    → a.min_replicas ≡ some (pos low)
    → a.max_replicas ≡ pos high
    → high < low
    → c.spec.class_ref ≡ ""
    → c.spec.image ≢ ""
    → int_lt a.max_replicas c.spec.replicas ≡ false
    → RefusesInverted api
    → api.autoscaler h' c.metadata.namespace c.metadata.name ≡ err missing
    → lib.is_not_found missing ≡ true
    → (validate api lib c h ≡ (ok tt, h)) × (e : Error) × ((reconcile_hpa api lib c h').0 ≡ err e)
unfolding validate check_class check_replicas reconcile_hpa store_autoscaler desired_autoscaler_spec
inverted_bounds_admitted api lib c a low high h h' missing auto min max less none image enough
      refuses absent gone =
    elim (Result-cases
      (lib.set_controller_reference c.metadata (new_meta c.metadata.name c.metadata.namespace))) [
        | inr (x, failed) ↦
            (ground (arith, eq_iff c.spec.class_ref "", eq_iff c.spec.image ""), x, ground arith)
        | inl (refs, owned) ↦
            let m = record (new_meta c.metadata.name c.metadata.namespace) {
              owner_references = refs;
            } in
            let (e, refused) =
              refuses (get autoscalers c.metadata.namespace c.metadata.name ∷ h')
                (record { metadata = m; spec = desired_autoscaler_spec c a }) low high min max
                less in
            (ground (arith, eq_iff c.spec.class_ref "", eq_iff c.spec.image ""), e, ground arith)
      ]
