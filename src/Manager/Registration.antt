-- ===== src/Manager/Registration.antt =====
-- What internal/controller and internal/webhook/v1alpha1 register with controller-runtime: SetupWithManager
-- of both reconcilers, SetupDataPrepperClusterWebhookWithManager and
-- SetupDataPrepperPipelineWebhookWithManager.
use opensearch_dataprepper_k.Common.{String, some, List, [], ◌∷◌}
use opensearch_dataprepper_k.Kube.Client.{
  Server, Machinery, Kind, clusters, pipelines, config_maps, deployments, services, autoscalers,
  Object, M,
}
use opensearch_dataprepper_k.Api.{Cluster, Pipeline}
use opensearch_dataprepper_k.PipelineController.Watches.{
  Request, find_pipelines_for_config_map, find_pipelines_for_cluster,
}
use opensearch_dataprepper_k.PipelineController.Reconcile as Pipelines
use opensearch_dataprepper_k.ClusterController.Reconcile as Clusters
use opensearch_dataprepper_k.Webhooks.ClusterValidator
use opensearch_dataprepper_k.Webhooks.PipelineValidator

-- Watches, with the function that maps an event's object to requests.
pub record Watch : Type 0 where
  pub kind : Kind
  pub requests : Object → M (List Request)

-- ctrl.NewControllerManagedBy: For, Owns, Watches, Named, Complete.
pub record Controller : Type 0 where
  pub name : String
  pub primary : Kind
  pub owns : List Kind
  pub watches : List Watch
  pub reconciles : String → String → M (Unit {0})

-- admission.Validator
pub record Validator (A : Type 0) : Type 0 where
  pub create : A → M (Unit {0})
  pub update : A → A → M (Unit {0})
  pub delete : A → M (Unit {0})

-- ctrl.NewWebhookManagedBy: the type that it is for, WithValidator, Complete.
pub data Webhook : Type 0 where
  cluster_webhook : Validator Cluster → Webhook
  pipeline_webhook : Validator Pipeline → Webhook

module _ (api : Server) (lib : Machinery) where
  unfoldable pub cluster_controller : Controller
  cluster_controller = record {
    name = "datapreppercluster";
    primary = clusters;
    owns = deployments ∷ config_maps ∷ services ∷ autoscalers ∷ [];
    watches = [];
    reconciles = Clusters.reconcile api lib;
  }

  unfoldable pub pipeline_controller : Controller
  pipeline_controller = record {
    name = "dataprepperpipeline";
    primary = pipelines;
    owns = [];
    watches =
        record { kind = config_maps; requests = find_pipelines_for_config_map api }
        ∷ record { kind = clusters; requests = find_pipelines_for_cluster api }
        ∷ [];
    reconciles = Pipelines.reconcile api lib;
  }

  unfoldable pub setup_cluster_webhook : Webhook
  setup_cluster_webhook = cluster_webhook record {
    create = ClusterValidator.validate_create api lib;
    update = ClusterValidator.validate_update api lib;
    delete = ClusterValidator.validate_delete api lib;
  }

unfoldable pub setup_pipeline_webhook : Server → Webhook
setup_pipeline_webhook api = pipeline_webhook record {
  create = PipelineValidator.validate_create (some api);
  update = PipelineValidator.validate_update (some api);
  delete = PipelineValidator.validate_delete;
}
