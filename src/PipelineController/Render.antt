-- ===== src/PipelineController/Render.antt =====
-- internal/controller/dataprepperpipeline_controller.go: the part of rebuildClusterConfig that makes the
-- content of the ConfigMap out of the listed pipelines, and its hash.
use Prim.Native.String.{slice}
use opensearch_dataprepper_k.Common.{
  String, List, [], ◌∷◌, none, some, not, ◌==◌, is_some, if◌then◌else◌, ◌<>◌,
}
use opensearch_dataprepper_k.Common.Maps.{Map, lookup, insert}
use opensearch_dataprepper_k.Go.Strings.{trim_space}
use opensearch_dataprepper_k.Go.Format.{quote}
use opensearch_dataprepper_k.Go.Json.{unmarshal_keys}
use opensearch_dataprepper_k.Go.Sha256.{sha256_hex}
use opensearch_dataprepper_k.Kube.Result.{Result, ok, err, errorf, wrap}
use opensearch_dataprepper_k.Kube.Objects.{is_zero}
use opensearch_dataprepper_k.Kube.Client.{Machinery}
use opensearch_dataprepper_k.Api.{Pipeline}

-- defaultPipelineYaml
abbrev pub default_pipeline_yaml : String
default_pipeline_yaml =
    "placeholder-pipeline:\n  source:\n    http:\n      port: 2021\n  sink:\n    - stdout:\n"

module _ (cluster_ref exclude_name : String) where
  -- One round of the loop over the listed pipelines; `continue` leaves the definitions as they are.
  unfoldable pub add_definition : Pipeline → Map String → Result (Map String)
  add_definition p definitions =
      if p.metadata.name == exclude_name
      then ok definitions
      else if not (p.spec.cluster_ref == cluster_ref)
      then ok definitions
      else if not (is_zero p.metadata.deletion_timestamp)
      then ok definitions
      else if trim_space p.spec.yaml_key == ""
      then err
          (errorf ("DataPrepperPipeline " <> quote p.metadata.name <> " has an empty spec.yamlKey"))
      else if is_some (lookup p.spec.yaml_key definitions)
      then err (
          errorf (
            "duplicate spec.yamlKey "
            <> quote p.spec.yaml_key
            <> " for DataPrepperCluster "
            <> quote cluster_ref))
      else elim (unmarshal_keys p.spec.pipeline) [
        | none ↦ err (
            wrap
              ("DataPrepperPipeline "
                <> quote p.metadata.name
                <> " has an invalid spec.pipeline object: ")
              (errorf "json"))
        | some [] ↦ err (
            errorf (
              "DataPrepperPipeline "
              <> quote p.metadata.name
              <> " has an empty spec.pipeline object"))
        | some (_ ∷ _) ↦ ok (insert p.spec.yaml_key p.spec.pipeline definitions)
      ]

  -- The loop.
  unfoldable pub collect : List Pipeline → Map String → Result (Map String)
  collect [] definitions = ok definitions
  collect (p ∷ rest) definitions = elim (add_definition p definitions) [
    | ok more ↦ collect rest more
    | err e ↦ err e
  ]

-- The content for the collected definitions.
unfoldable pub render : Machinery → Map String → Result String
render lib [] = ok default_pipeline_yaml
render lib (d ∷ definitions) = elim (lib.yaml_marshal (d ∷ definitions)) [
  | ok rendered ↦ ok rendered
  | err e ↦ err (wrap "could not render pipeline definitions: " e)
]

-- The first sixteen digits of the SHA-256 digest.
unfoldable pub content_hash : String → String
content_hash content = slice (sha256_hex content) 0 16
