-- ===== src/Kube/Objects.antt =====
-- The Kubernetes objects, with the fields that the operator reads or writes. A field `remainder` stands
-- for the rest of an object, which the operator carries along unread.
use opensearch_dataprepper_k.Common.{String, ℕ, ℤ, List, Option, none, some, Bool, true, nat_eq}
use opensearch_dataprepper_k.Common.Maps.{StringMap}

pub record OwnerReference : Type 0 where
  pub kind : String
  pub name : String
  pub uid : String

pub record ObjectMeta : Type 0 where
  pub name : String
  pub namespace : String
  pub uid : String
  pub generation : ℤ
  pub deletion_timestamp : Option ℕ
  pub finalizers : List String
  pub owner_references : List OwnerReference

-- metav1.Time's IsZero, through a pointer.
abbrev pub is_zero : Option ℕ → Bool
is_zero none = true
is_zero (some t) = nat_eq t 0

pub record Condition : Type 0 where
  pub type : String
  pub status : String
  pub reason : String
  pub message : String
  pub observed_generation : ℤ
  pub last_transition_time : ℕ

pub record ConfigMap : Type 0 where
  pub metadata : ObjectMeta
  pub entries : StringMap

pub record ResourceRequirements : Type 0 where
  pub requests : StringMap
  pub limits : StringMap
  pub claims : List String

pub record ContainerPort : Type 0 where
  pub name : String
  pub container_port : ℤ
  pub protocol : String
  pub remainder : String

pub record VolumeMount : Type 0 where
  pub name : String
  pub mount_path : String
  pub sub_path : String
  pub remainder : String

pub data VolumeSource : Type 0 where
  config_map : String → VolumeSource
  other_source : String → VolumeSource

pub record Volume : Type 0 where
  pub name : String
  pub source : VolumeSource

-- A probe of a TCP socket on a named port.
pub record Probe : Type 0 where
  pub port : String
  pub initial_delay_seconds : ℤ
  pub period_seconds : ℤ
  pub failure_threshold : ℤ

-- Unread by the operator: carried as text.
abbrev pub Toleration : Type 0
Toleration = String

abbrev pub EnvFromSource : Type 0
EnvFromSource = String

pub record Container : Type 0 where
  pub name : String
  pub image : String
  pub resources : ResourceRequirements
  pub ports : List ContainerPort
  pub volume_mounts : List VolumeMount
  pub env_from : List EnvFromSource
  pub startup_probe : Option Probe
  pub liveness_probe : Option Probe
  pub readiness_probe : Option Probe
  pub remainder : String

pub record PodTemplate : Type 0 where
  pub labels : StringMap
  pub annotations : StringMap
  pub node_selector : StringMap
  pub tolerations : List Toleration
  pub containers : List Container
  pub volumes : List Volume
  pub remainder : String

pub record DeploymentStatus : Type 0 where
  pub observed_generation : ℤ
  pub ready_replicas : ℤ
  pub updated_replicas : ℤ
  pub unavailable_replicas : ℤ

pub record Deployment : Type 0 where
  pub metadata : ObjectMeta
  pub replicas : Option ℤ
  pub selector : StringMap
  pub template : PodTemplate
  pub status : DeploymentStatus

pub data IntOrString : Type 0 where
  int : ℤ → IntOrString
  str : String → IntOrString

pub record ServicePort : Type 0 where
  pub name : String
  pub port : ℤ
  pub target_port : IntOrString
  pub protocol : String

pub record Service : Type 0 where
  pub metadata : ObjectMeta
  pub cluster_ip : String
  pub publish_not_ready_addresses : Bool
  pub selector : StringMap
  pub ports : List ServicePort

pub record MetricSpec : Type 0 where
  pub type : String
  pub resource : String
  pub target_type : String
  pub average_utilization : Option ℤ

pub record AutoscalerSpec : Type 0 where
  pub target_api_version : String
  pub target_kind : String
  pub target_name : String
  pub min_replicas : Option ℤ
  pub max_replicas : ℤ
  pub metrics : List MetricSpec
  -- The scaling behaviour, of which no field is read: carried as text, and empty if it is nil.
  pub behavior : String

pub record HorizontalPodAutoscaler : Type 0 where
  pub metadata : ObjectMeta
  pub spec : AutoscalerSpec

-- The untyped content of an unstructured object.
mutual
  pub data Value : Type 0 where
    text : String → Value
    object : Fields → Value
    array : Items → Value

  pub data Fields : Type 0 where
    end : Fields
    field : String → Value → Fields → Fields

  pub data Items : Type 0 where
    nil : Items
    item : Value → Items → Items

pub record ServiceMonitor : Type 0 where
  pub metadata : ObjectMeta
  pub content : Fields

pub record ContainerState : Type 0 where
  pub reason : String
  pub message : String

pub record ContainerStatus : Type 0 where
  pub name : String
  pub waiting : Option ContainerState
  pub terminated : Option ContainerState

pub record Pod : Type 0 where
  pub metadata : ObjectMeta
  pub container_statuses : List ContainerStatus
