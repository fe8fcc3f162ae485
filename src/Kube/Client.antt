-- ===== src/Kube/Client.antt =====
-- The API server and the library functions that the sources call, as parameters, and handlers that
-- call them. A handler carries the list of the calls that it has made, the latest first.
use opensearch_dataprepper_k.Common.{String, List, [], ◌∷◌, Bool}
use opensearch_dataprepper_k.Common.Maps.{Map, StringMap}
use opensearch_dataprepper_k.Kube.Result.{Error, Result, ok, err}
use opensearch_dataprepper_k.Kube.Objects.{
  ObjectMeta, OwnerReference, Condition, ConfigMap, Deployment, Service, ServicePort,
  HorizontalPodAutoscaler, AutoscalerSpec, ServiceMonitor, Fields, Pod,
}
use opensearch_dataprepper_k.Api.{Cluster, ClusterStatus, Pipeline, Class}

pub data Kind : Type 0 where
  clusters classes pipelines config_maps deployments services autoscalers monitors pods : Kind

pub data Object : Type 0 where
  cluster_body : Cluster → Object
  pipeline_body : Pipeline → Object
  config_map_body : ConfigMap → Object
  deployment_body : Deployment → Object
  service_body : Service → Object
  autoscaler_body : HorizontalPodAutoscaler → Object
  monitor_body : ServiceMonitor → Object

abbrev pub kind_of : Object → Kind
kind_of (cluster_body _) = clusters
kind_of (pipeline_body _) = pipelines
kind_of (config_map_body _) = config_maps
kind_of (deployment_body _) = deployments
kind_of (service_body _) = services
kind_of (autoscaler_body _) = autoscalers
kind_of (monitor_body _) = monitors

pub data Verb : Type 0 where
  create update delete update_status : Verb

pub data Call : Type 0 where
  -- a kind, a namespace and a name; a kind and a namespace
  get : Kind → String → String → Call
  list : Kind → String → Call
  write : Verb → Object → Call

-- What the server answers to a call. It may depend on all the calls before, so on what they wrote
-- and on what others did meanwhile.
pub record Server : Type 0 where
  pub cluster : List Call → String → String → Result Cluster
  pub class : List Call → String → Result Class
  pub pipeline : List Call → String → String → Result Pipeline
  pub config_map : List Call → String → String → Result ConfigMap
  pub deployment : List Call → String → String → Result Deployment
  pub service : List Call → String → String → Result Service
  pub autoscaler : List Call → String → String → Result HorizontalPodAutoscaler
  pub monitor : List Call → String → String → Result ServiceMonitor
  pub pipeline_list : List Call → String → Result (List Pipeline)
  -- the namespace and the labels to match
  pub pod_list : List Call → String → StringMap → Result (List Pod)
  pub written : List Call → Verb → Object → Result (Unit {0})

-- Functions of k8s.io/apimachinery, sigs.k8s.io/controller-runtime and sigs.k8s.io/yaml.
pub record Machinery : Type 0 where
  -- errors.IsNotFound, meta.IsNoMatchError
  pub is_not_found : Error → Bool
  pub is_no_match_error : Error → Bool
  -- ctrl.SetControllerReference: the new owner references of the controlled object
  pub set_controller_reference : ObjectMeta → ObjectMeta → Result (List OwnerReference)
  -- meta.SetStatusCondition
  pub set_status_condition : List Condition → Condition → List Condition
  -- controllerutil: ContainsFinalizer, AddFinalizer, RemoveFinalizer
  pub contains_finalizer : List String → String → Bool
  pub add_finalizer : List String → String → List String
  pub remove_finalizer : List String → String → List String
  -- apiequality.Semantic.DeepEqual, at the types that it is called at
  pub equal_ports : List ServicePort → List ServicePort → Bool
  pub equal_selectors : StringMap → StringMap → Bool
  pub equal_conditions : List Condition → List Condition → Bool
  pub equal_cluster_status : ClusterStatus → ClusterStatus → Bool
  pub equal_autoscaler_spec : AutoscalerSpec → AutoscalerSpec → Bool
  pub equal_fields : Fields → Fields → Bool
  -- unstructured.NestedMap and SetNestedMap, at the field "spec"
  pub nested_spec : ServiceMonitor → Fields
  pub set_nested_spec : ServiceMonitor → Fields → Result ServiceMonitor
  -- yaml.Marshal of a map from keys to raw JSON
  pub yaml_marshal : Map String → Result String

abbrev pub M {ℓ} : Type ℓ → Type ℓ
M A = List Call → Result A × List Call

module _ {ℓ} {A : Type ℓ} where
  abbrev pub pure : A → M A
  pure a h = (ok a, h)

  abbrev pub throw : Error → M A
  throw e h = (err e, h)

  abbrev pub lift : Result A → M A
  lift r h = (r, h)

  -- The outcome of a call as a value, for code that inspects the error.
  abbrev attempted : Result A × List Call → Result (Result A) × List Call
  attempted (r, h) = (ok r, h)

  abbrev pub attempt : M A → M (Result A)
  attempt m h = attempted (m h)

module _ {ℓ κ} {A : Type ℓ} {B : Type κ} where
  abbrev pub next : (A → M B) → Result A × List Call → Result B × List Call
  next f (ok a, h) = f a h
  next f (err e, h) = (err e, h)

  infixl 10 ◌>>=◌
  abbrev pub ◌>>=◌ : M A → (A → M B) → M B
  ◌>>=◌ m f h = next f (m h)

module _ {κ} {B : Type κ} where
  infixl 10 ◌>>◌
  abbrev pub ◌>>◌ : M (Unit {0}) → M B → M B
  m >> n = m >>= λ _. n

-- The calls of client.Client.
module _ (api : Server) where
  abbrev pub get_cluster : String → String → M Cluster
  get_cluster ns name h = (api.cluster h ns name, get clusters ns name ∷ h)

  abbrev pub get_class : String → M Class
  get_class name h = (api.class h name, get classes "" name ∷ h)

  abbrev pub get_pipeline : String → String → M Pipeline
  get_pipeline ns name h = (api.pipeline h ns name, get pipelines ns name ∷ h)

  abbrev pub get_config_map : String → String → M ConfigMap
  get_config_map ns name h = (api.config_map h ns name, get config_maps ns name ∷ h)

  abbrev pub get_deployment : String → String → M Deployment
  get_deployment ns name h = (api.deployment h ns name, get deployments ns name ∷ h)

  abbrev pub get_service : String → String → M Service
  get_service ns name h = (api.service h ns name, get services ns name ∷ h)

  abbrev pub get_autoscaler : String → String → M HorizontalPodAutoscaler
  get_autoscaler ns name h = (api.autoscaler h ns name, get autoscalers ns name ∷ h)

  abbrev pub get_monitor : String → String → M ServiceMonitor
  get_monitor ns name h = (api.monitor h ns name, get monitors ns name ∷ h)

  abbrev pub list_pipelines : String → M (List Pipeline)
  list_pipelines ns h = (api.pipeline_list h ns, list pipelines ns ∷ h)

  abbrev pub list_pods : String → StringMap → M (List Pod)
  list_pods ns labels h = (api.pod_list h ns labels, list pods ns ∷ h)

  abbrev pub send : Verb → Object → M (Unit {0})
  send verb body h = (api.written h verb body, write verb body ∷ h)

-- The calls that change the cluster's state, the latest first.
abbrev pub writes : List Call → List Call
writes [] = []
writes (write verb body ∷ h) = write verb body ∷ writes h
writes (get _ _ _ ∷ h) = writes h
writes (list _ _ ∷ h) = writes h
