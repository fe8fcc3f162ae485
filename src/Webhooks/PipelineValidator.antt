-- ===== src/Webhooks/PipelineValidator.antt =====
-- internal/webhook/v1alpha1/dataprepperpipeline_webhook.go
use opensearch_dataprepper_k.Common.{
  ℕ, List, [], ◌∷◌, Option, none, some, not, ◌&&◌, ◌==◌, if◌then◌else◌, ◌<>◌,
}
use opensearch_dataprepper_k.Go.Strings.{trim_space}
use opensearch_dataprepper_k.Go.Format.{quote}
use opensearch_dataprepper_k.Go.Json.{unmarshal_keys, has_key}
use opensearch_dataprepper_k.Kube.Result.{Result, ok, err, errorf, wrap}
use opensearch_dataprepper_k.Kube.Client.{
  Server, M, pure, throw, lift, attempt, ◌>>=◌, ◌>>◌, list_pipelines,
}
use opensearch_dataprepper_k.Api.{Pipeline}

-- The tests on the decoded definition.
unfoldable pub check_definition : Option (List (List ℕ)) → Result (Unit {0})
check_definition none = err (wrap "spec.pipeline must be an object: " (errorf "json"))
check_definition (some []) = err (errorf "spec.pipeline must define at least one field")
check_definition (some (k ∷ keys)) =
    if not (has_key "source" (k ∷ keys))
    then err (errorf "spec.pipeline missing required key 'source'")
    else if not (has_key "sink" (k ∷ keys))
    then err (errorf "spec.pipeline missing required key 'sink'")
    else ok tt

unfoldable pub validate_pipeline_definition : Pipeline → Result (Unit {0})
unfolding check_definition
validate_pipeline_definition p =
    if trim_space p.spec.yaml_key == ""
    then err (errorf "spec.yamlKey must not be empty")
    else check_definition (unmarshal_keys p.spec.pipeline)

-- The loop over the existing pipelines.
unfoldable pub check_unique : Pipeline → List Pipeline → Result (Unit {0})
check_unique p [] = ok tt
check_unique p (existing ∷ rest) =
    let others = check_unique p rest in
    if existing.metadata.name == p.metadata.name
    then others
    else if existing.spec.cluster_ref == p.spec.cluster_ref
        && existing.spec.yaml_key == p.spec.yaml_key
    then err (
        errorf (
          "spec.yamlKey "
          <> quote p.spec.yaml_key
          <> " is already used by DataPrepperPipeline "
          <> quote existing.metadata.name
          <> " for cluster "
          <> quote p.spec.cluster_ref))
    else others

-- `none` is a validator without a client.
unfoldable pub validate : Option Server → Pipeline → M (Unit {0})
unfolding validate_pipeline_definition check_unique
validate none p = lift (validate_pipeline_definition p)
validate (some api) p = do
  lift (validate_pipeline_definition p)
  listed ← attempt (list_pipelines api p.metadata.namespace)
  elim listed [
    | err e ↦ throw (wrap "could not list DataPrepperPipelines: " e)
    | ok items ↦ lift (check_unique p items)
  ]

-- ValidateCreate, ValidateUpdate, ValidateDelete
unfoldable pub validate_create : Option Server → Pipeline → M (Unit {0})
unfolding validate
validate_create api p = validate api p

unfoldable pub validate_update : Option Server → Pipeline → Pipeline → M (Unit {0})
unfolding validate
validate_update api _ p = validate api p

unfoldable pub validate_delete : Pipeline → M (Unit {0})
validate_delete _ = pure tt
