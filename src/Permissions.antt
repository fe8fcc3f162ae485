-- ===== src/Permissions.antt =====
-- The kubebuilder:rbac markers of internal/controller, from which config/rbac/role.yaml is generated: the
-- calls that the operator's role grants. Watches are not calls of the handlers.
pub mod ClusterCalls
pub mod PipelineCalls
use opensearch_dataprepper_k.Common.{◌≡◌, Bool, true, false, ◌||◌}
use opensearch_dataprepper_k.Kube.Client.{
  Kind, clusters, classes, pipelines, config_maps, deployments, services, autoscalers, monitors,
  pods, kind_of, Verb, create, update, delete, update_status, Call, get, list, write,
}

pub data Action : Type 0 where
  gets lists creates updates deletes updates_status : Action

-- The markers of the cluster controller.
unfoldable pub cluster_role : Kind → Action → Bool
cluster_role clusters action = true
cluster_role pipelines gets = true
cluster_role pipelines lists = true
cluster_role pipelines _ = false
cluster_role classes gets = true
cluster_role classes lists = true
cluster_role classes _ = false
cluster_role deployments deletes = false
cluster_role deployments updates_status = false
cluster_role deployments _ = true
cluster_role config_maps deletes = false
cluster_role config_maps updates_status = false
cluster_role config_maps _ = true
cluster_role services deletes = false
cluster_role services updates_status = false
cluster_role services _ = true
cluster_role autoscalers updates_status = false
cluster_role autoscalers _ = true
cluster_role monitors updates_status = false
cluster_role monitors _ = true
cluster_role pods action = false

-- The markers of the pipeline controller.
unfoldable pub pipeline_role : Kind → Action → Bool
pipeline_role pipelines action = true
pipeline_role clusters gets = true
pipeline_role clusters lists = true
pipeline_role clusters _ = false
pipeline_role deployments gets = true
pipeline_role deployments lists = true
pipeline_role deployments updates = true
pipeline_role deployments _ = false
pipeline_role config_maps gets = true
pipeline_role config_maps lists = true
pipeline_role config_maps updates = true
pipeline_role config_maps _ = false
pipeline_role pods gets = true
pipeline_role pods lists = true
pipeline_role pods _ = false
pipeline_role _ action = false

abbrev pub action_of : Verb → Action
action_of create = creates
action_of update = updates
action_of delete = deletes
action_of update_status = updates_status

-- Both controllers run under one role.
unfoldable pub is_granted : Call → Bool
unfolding cluster_role pipeline_role
is_granted (get kind _ _) = cluster_role kind gets || pipeline_role kind gets
is_granted (list kind _) = cluster_role kind lists || pipeline_role kind lists
is_granted (write verb body) =
    cluster_role (kind_of body) (action_of verb) || pipeline_role (kind_of body) (action_of verb)

abbrev pub IsGranted : Call → Type 0
IsGranted call = is_granted call ≡ true
