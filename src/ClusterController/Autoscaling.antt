-- ===== src/ClusterController/Autoscaling.antt =====
-- internal/controller/datapreppercluster_controller.go: reconcileHPA
use opensearch_dataprepper_k.Common.{[], ◌∷◌, Option, none, some, ℤ, pos, if◌then◌else◌}
use opensearch_dataprepper_k.Kube.Result.{Result, ok, err}
use opensearch_dataprepper_k.Kube.Objects.{AutoscalerSpec, HorizontalPodAutoscaler}
use opensearch_dataprepper_k.Kube.Client.{
  Server, Machinery, create, update, delete, autoscaler_body, M, pure, throw, attempt, ◌>>=◌,
  get_autoscaler, send,
}
use opensearch_dataprepper_k.Api.{Cluster, AutoscalingSpec}
use opensearch_dataprepper_k.ClusterController.ConfigMaps.{new_meta, owned_by}

abbrev pub cpu_target : Option ℤ → ℤ
cpu_target none = pos 70
cpu_target (some target) = target

unfoldable pub desired_autoscaler_spec : Cluster → AutoscalingSpec → AutoscalerSpec
desired_autoscaler_spec cluster as_spec = record {
  target_api_version = "apps/v1";
  target_kind = "Deployment";
  target_name = cluster.metadata.name;
  min_replicas = as_spec.min_replicas;
  max_replicas = as_spec.max_replicas;
  metrics =
      record {
        type = "Resource";
        resource = "cpu";
        target_type = "Utilization";
        average_utilization = some (cpu_target as_spec.target_cpu_utilization_percentage);
      }
      ∷ [];
  behavior = "";
}

module _ (api : Server) (lib : Machinery) where
  -- `spec.autoscaling` is nil.
  unfoldable pub remove_autoscaler : Result HorizontalPodAutoscaler → M (Unit {0})
  remove_autoscaler (err e) = if lib.is_not_found e then pure tt else throw e
  remove_autoscaler (ok existing) = send api delete (autoscaler_body existing)

  unfoldable pub store_autoscaler :
      Cluster → AutoscalingSpec → Result HorizontalPodAutoscaler → M (Unit {0})
  store_autoscaler cluster as_spec found = do
    m ← owned_by lib cluster (new_meta cluster.metadata.name cluster.metadata.namespace)
    elim found [
      | err e ↦
          if lib.is_not_found e
          then send api create (
              autoscaler_body
                (record { metadata = m; spec = desired_autoscaler_spec cluster as_spec }))
          else throw e
      | ok existing ↦
          if lib.equal_autoscaler_spec existing.spec (desired_autoscaler_spec cluster as_spec)
          then pure tt
          else send api update
              (autoscaler_body (record existing { spec = desired_autoscaler_spec cluster as_spec }))
    ]

  unfoldable pub reconcile_hpa : Cluster → M (Unit {0})
  reconcile_hpa cluster = do
    found ← attempt (get_autoscaler api cluster.metadata.namespace cluster.metadata.name)
    elim cluster.spec.autoscaling [
      | none ↦ remove_autoscaler found
      | some as_spec ↦ store_autoscaler cluster as_spec found
    ]
