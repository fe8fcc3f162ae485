-- ===== src/ClusterController/Monitoring.antt =====
-- internal/controller/datapreppercluster_controller.go: reconcileServiceMonitor
use opensearch_dataprepper_k.Common.{Bool, false, Option, none, some, if◌then◌else◌}
use opensearch_dataprepper_k.Kube.Result.{Result, ok, err}
use opensearch_dataprepper_k.Kube.Objects.{
  Fields, text, object, array, end, field, nil, item, ServiceMonitor,
}
use opensearch_dataprepper_k.Kube.Client.{
  Server, Machinery, create, update, delete, monitor_body, M, pure, throw, lift, attempt, ◌>>=◌,
  get_monitor, send,
}
use opensearch_dataprepper_k.Api.{Cluster, MetricsSpec}
use opensearch_dataprepper_k.ClusterController.ConfigMaps.{new_meta, owned_by}

abbrev pub wants_monitor : Option MetricsSpec → Bool
wants_monitor none = false
wants_monitor (some metrics) = metrics.service_monitor

unfoldable pub desired_monitor_spec : Cluster → Fields
desired_monitor_spec cluster =
    field "selector"
      (object (field "matchLabels" (object (field "app" (text cluster.metadata.name) end)) end))
      (field "endpoints"
        (array (
          item (object (field "port" (text "http") (field "path" (text "/metrics/prometheus") end)))
            nil))
        end)

-- An object with its kind, its name and its namespace, and no other content.
abbrev pub bare_monitor : Cluster → ServiceMonitor
bare_monitor cluster = record {
  metadata = new_meta cluster.metadata.name cluster.metadata.namespace;
  content = end;
}

module _ (api : Server) (lib : Machinery) where
  unfoldable pub remove_monitor : Result ServiceMonitor → M (Unit {0})
  remove_monitor (err e) = if lib.is_not_found e then pure tt else throw e
  remove_monitor (ok existing) = send api delete (monitor_body existing)

  -- A missing resource definition is passed over in silence.
  abbrev pub forgive_no_match : Result (Unit {0}) → M (Unit {0})
  forgive_no_match (ok _) = pure tt
  forgive_no_match (err e) = if lib.is_no_match_error e then pure tt else throw e

  unfoldable pub store_monitor : Cluster → Result ServiceMonitor → M (Unit {0})
  store_monitor cluster found = do
    desired ← lift (lib.set_nested_spec (bare_monitor cluster) (desired_monitor_spec cluster))
    m ← owned_by lib cluster desired.metadata
    elim found [
      | err e ↦
          if lib.is_not_found e
          then (do
            created ← attempt (send api create (monitor_body (record desired { metadata = m })))
            forgive_no_match created)
          else throw e
      | ok existing ↦
          if lib.equal_fields (lib.nested_spec existing) (desired_monitor_spec cluster)
          then pure tt
          else (do
            updated ← lift (lib.set_nested_spec existing (desired_monitor_spec cluster))
            send api update (monitor_body updated))
    ]

  -- What follows the test for a missing resource definition.
  unfoldable pub settle_monitor : Cluster → Result ServiceMonitor → M (Unit {0})
  settle_monitor cluster found =
      if wants_monitor cluster.spec.metrics
      then store_monitor cluster found
      else remove_monitor found

  unfoldable pub reconcile_service_monitor : Cluster → M (Unit {0})
  reconcile_service_monitor cluster = do
    found ← attempt (get_monitor api cluster.metadata.namespace cluster.metadata.name)
    elim found [
      | err e ↦ if lib.is_no_match_error e then pure tt else settle_monitor cluster (err e)
      | ok existing ↦ settle_monitor cluster (ok existing)
    ]
