-- ===== src/Manager/Traffic.antt =====
-- How many calls the registered controllers make for one request.
use opensearch_dataprepper_k.Common.{String, List, ◌+◌, ◌≤◌, length}
use opensearch_dataprepper_k.Kube.Client.{Server, Machinery, Call}
use opensearch_dataprepper_k.ClusterController.Traffic.{cluster_reconcile-Bounded}
use opensearch_dataprepper_k.PipelineController.Traffic.{pipeline_reconcile-Bounded}
use opensearch_dataprepper_k.Manager.Registration.{cluster_controller, pipeline_controller}

-- Whatever the server answers and was called before, the cluster controller reconciles one request in no
-- more than 19 calls, and the pipeline controller in no more than 9.
pub request_calls_bounded :
    (api : Server) (lib : Machinery) (ns name : String) (h : List Call)
    → (length ((cluster_controller api lib).reconciles ns name h).1 ≤ 19 + length h)
      × (length ((pipeline_controller api lib).reconciles ns name h).1 ≤ 9 + length h)
unfolding cluster_controller pipeline_controller
request_calls_bounded api lib ns name h = (
  (cluster_reconcile-Bounded api lib ns name).at h,
  (pipeline_reconcile-Bounded api lib ns name).at h,
)
