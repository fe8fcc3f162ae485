-- ===== src/Api.antt =====
-- api/v1alpha1: the custom resources DataPrepperCluster, DataPrepperPipeline and DataPrepperClass.
use opensearch_dataprepper_k.Common.{String, ℤ, List, Option, Bool}
use opensearch_dataprepper_k.Common.Maps.{StringMap}
use opensearch_dataprepper_k.Kube.Objects.{
  ObjectMeta, Condition, ResourceRequirements, Volume, VolumeMount, ContainerPort, EnvFromSource,
  Toleration,
}

-- AutoscalingSpec
pub record AutoscalingSpec : Type 0 where
  pub min_replicas : Option ℤ
  pub max_replicas : ℤ
  pub target_cpu_utilization_percentage : Option ℤ

-- MetricsSpec
pub record MetricsSpec : Type 0 where
  pub service_monitor : Bool

-- DataPrepperClusterSpec
pub record ClusterSpec : Type 0 where
  pub class_ref : String
  pub image : String
  pub replicas : ℤ
  pub resources : ResourceRequirements
  pub server_config_map : String
  pub assets_config_map : String
  pub extra_volumes : List Volume
  pub extra_volume_mounts : List VolumeMount
  pub extra_ports : List ContainerPort
  pub env_from : List EnvFromSource
  pub metrics : Option MetricsSpec
  pub autoscaling : Option AutoscalingSpec

-- DataPrepperClusterPhase, whose zero value is the empty string
pub data ClusterPhase : Type 0 where
  unset pending ready degraded : ClusterPhase

-- DataPrepperClusterStatus
pub record ClusterStatus : Type 0 where
  pub phase : ClusterPhase
  pub ready_replicas : ℤ
  pub pipelines : ℤ
  pub observed_generation : ℤ
  pub conditions : List Condition

-- DataPrepperCluster
pub record Cluster : Type 0 where
  pub metadata : ObjectMeta
  pub spec : ClusterSpec
  pub status : ClusterStatus

-- DataPrepperPipelineSpec; `pipeline` is the raw JSON text
pub record PipelineSpec : Type 0 where
  pub cluster_ref : String
  pub yaml_key : String
  pub pipeline : String

-- DataPrepperPipelinePhase, whose zero value is the empty string
pub data PipelinePhase : Type 0 where
  unset pending applied : PipelinePhase

-- DataPrepperPipelineStatus
pub record PipelineStatus : Type 0 where
  pub phase : PipelinePhase
  pub observed_generation : ℤ
  pub conditions : List Condition

-- DataPrepperPipeline
pub record Pipeline : Type 0 where
  pub metadata : ObjectMeta
  pub spec : PipelineSpec
  pub status : PipelineStatus

-- DataPrepperClassSpec
pub record ClassSpec : Type 0 where
  pub image : String
  pub resources : ResourceRequirements
  pub env_from : List EnvFromSource
  pub node_selector : StringMap
  pub tolerations : List Toleration
  pub pod_labels : StringMap
  pub pod_annotations : StringMap

-- DataPrepperClass
pub record Class : Type 0 where
  pub metadata : ObjectMeta
  pub spec : ClassSpec
