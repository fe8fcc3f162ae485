-- ===== src/Tests/Fixtures.antt =====
-- Objects, and a server that has them, to run the handlers on.
use opensearch_dataprepper_k.Common.{String, List, [], ◌∷◌, false, Option, none, some, pos}
use opensearch_dataprepper_k.Kube.Result.{ok}
use opensearch_dataprepper_k.Kube.Objects
use opensearch_dataprepper_k.Kube.Objects.{
  ObjectMeta, OwnerReference, Condition, ConfigMap, Deployment, Service, HorizontalPodAutoscaler,
  ServiceMonitor, ResourceRequirements, Pod, ContainerState, Container, ContainerStatus,
}
use opensearch_dataprepper_k.Kube.Client.{Server}
use opensearch_dataprepper_k.Api.{Cluster, ClusterPhase, Class, Pipeline, PipelinePhase}
use opensearch_dataprepper_k.ClusterController.Scope.{IsKeyed}
use opensearch_dataprepper_k.Common.{arith}

abbrev pub meta : String → String → ObjectMeta
meta ns name = record {
  name = name;
  namespace = ns;
  uid = "u";
  generation = pos 1;
  deletion_timestamp = none;
  finalizers = [];
  owner_references = [];
}

abbrev pub pipeline : String → String → String → Pipeline
pipeline name key text = record {
  metadata = meta "team" name;
  spec = record { cluster_ref = "logs"; yaml_key = key; pipeline = text };
  status = record { phase = PipelinePhase.unset; observed_generation = pos 0; conditions = [] };
}

abbrev pub definition_text : String
definition_text = "{\"source\":{},\"sink\":[]}"

abbrev pub first : Pipeline
first = pipeline "first" "alpha" definition_text

abbrev pub second : Pipeline
second = pipeline "second" "beta" definition_text

-- A pipeline with the key of `first`.
abbrev pub rival : Pipeline
rival = pipeline "rival" "alpha" definition_text

abbrev pub no_resources : ResourceRequirements
no_resources = record { requests = []; limits = []; claims = [] }

abbrev pub class : Class
class = record {
  metadata = meta "" "base";
  spec = record {
    image = "base:1";
    resources = no_resources;
    env_from = "base-env" ∷ [];
    node_selector = ("disk", "ssd") ∷ [];
    tolerations = [];
    pod_labels = ("app", "other") ∷ ("tier", "ingest") ∷ [];
    pod_annotations = [];
  };
}

-- A cluster of the class `base` with an image of its own.
abbrev pub cluster : String → String → Cluster
cluster ns name = record {
  metadata = meta ns name;
  spec = record {
    class_ref = "base";
    image = "own:2";
    replicas = pos 2;
    resources = no_resources;
    server_config_map = "";
    assets_config_map = "";
    extra_volumes = [];
    extra_volume_mounts = [];
    extra_ports = [];
    env_from = [];
    metrics = none;
    autoscaling = none;
  };
  status = record {
    phase = ClusterPhase.unset;
    ready_replicas = pos 0;
    pipelines = pos 0;
    observed_generation = pos 0;
    conditions = [];
  };
}

abbrev pub logs : Cluster
logs = cluster "team" "logs"

abbrev pub container : Container
container = record {
  name = "data-prepper";
  image = "old:1";
  resources = no_resources;
  ports = [];
  volume_mounts = [];
  env_from = [];
  startup_probe = none;
  liveness_probe = none;
  readiness_probe = none;
  remainder = "";
}

-- A Deployment with a side container and a pipelines hash.
abbrev pub deployment : String → String → Deployment
deployment ns name = record {
  metadata = meta ns name;
  replicas = some (pos 5);
  selector = ("app", name) ∷ [];
  template = record {
    labels = [];
    annotations = ("dataprepper.gabia.com/pipelines-hash", "0123456789abcdef") ∷ [];
    node_selector = [];
    tolerations = [];
    containers = container ∷ record container { name = "side" } ∷ [];
    volumes = [];
    remainder = "";
  };
  status = record {
    observed_generation = pos 1;
    ready_replicas = pos 2;
    updated_replicas = pos 2;
    unavailable_replicas = pos 0;
  };
}

abbrev pub config_map : String → String → ConfigMap
config_map ns name = record { metadata = meta ns name; entries = [] }

abbrev pub service : String → String → Service
service ns name = record {
  metadata = meta ns name;
  cluster_ip = "None";
  publish_not_ready_addresses = false;
  selector = [];
  ports = [];
}

abbrev pub monitor : String → String → ServiceMonitor
monitor ns name = record { metadata = meta ns name; content = Objects.end }

abbrev pub autoscaler : String → String → HorizontalPodAutoscaler
autoscaler ns name = record {
  metadata = meta ns name;
  spec = record {
    target_api_version = "apps/v1";
    target_kind = "Deployment";
    target_name = name;
    min_replicas = none;
    max_replicas = pos 3;
    metrics = [];
    behavior = "";
  };
}

-- A pod whose data-prepper container is as said.
abbrev pub pod : Option ContainerState → Pod
pod waiting = record {
  metadata = meta "team" "logs-0";
  container_statuses = record { name = "data-prepper"; waiting = waiting; terminated = none } ∷ [];
}

-- A server that has every object, and these pipelines and pods.
abbrev pub server : List Pipeline → List Pod → Server
server ps running = record {
  cluster = λ _ ns name. ok (cluster ns name);
  class = λ _ name. ok class;
  pipeline = λ _ ns name. ok first;
  config_map = λ _ ns name. ok (config_map ns name);
  deployment = λ _ ns name. ok (deployment ns name);
  service = λ _ ns name. ok (service ns name);
  autoscaler = λ _ ns name. ok (autoscaler ns name);
  monitor = λ _ ns name. ok (monitor ns name);
  pipeline_list = λ _ ns. ok ps;
  pod_list = λ _ ns labels. ok running;
  written = λ _ verb body. ok tt;
}

pub server-IsKeyed : (ps : List Pipeline) (running : List Pod) → IsKeyed (server ps running)
server-IsKeyed ps running = record {
  cluster = λ h ns name x e. (ground arith, ground arith);
  config_map = λ h ns name x e. (ground arith, ground arith);
  deployment = λ h ns name x e. (ground arith, ground arith);
  service = λ h ns name x e. (ground arith, ground arith);
  autoscaler = λ h ns name x e. (ground arith, ground arith);
  monitor = λ h ns name x e. (ground arith, ground arith);
}
