-- ===== src/Tests/Stored.antt =====
-- The ConfigMaps and Deployments of a server that keeps what it is sent.
use opensearch_dataprepper_k.Common.{
  ◌≡◌, ◌↔◌, String, Bool, true, ◌&&◌, Bool-cases, eq_refl, refl, List, Option, some, inl, inr,
  arith, ◌==◌, if◌then◌else◌, [], ◌∷◌, none,
}
use opensearch_dataprepper_k.Kube.Result.{Result, api, ok, err}
use opensearch_dataprepper_k.Kube.Objects.{ConfigMap, Deployment}
use opensearch_dataprepper_k.Kube.Client.{
  Call, write, create, update, config_map_body, deployment_body,
}
use opensearch_dataprepper_k.PipelineController.Quiet.{config_map_update, deployment_update}
use opensearch_dataprepper_k.Common.Maps.{StringMap}
use opensearch_dataprepper_k.Kube.Present.{present}
use opensearch_dataprepper_k.Manager.Bootstrap.{the_config_map, the_deployment}
use opensearch_dataprepper_k.ClusterController.Scope.{IsAt}
use opensearch_dataprepper_k.Tests.Fixtures.{config_map, deployment}

abbrev stored_config_map : Call → Option ConfigMap
stored_config_map (write create (config_map_body x)) = some x
stored_config_map (write update (config_map_body x)) = some x
stored_config_map _ = none

-- The entries of the ConfigMap of that name, as they were last written.
abbrev last_entries : String → String → List Call → StringMap
last_entries ns name [] = []
last_entries ns name (c ∷ h) = elim (stored_config_map c) [
  | some x ↦
      if x.metadata.namespace == ns && x.metadata.name == name
      then x.entries
      else last_entries ns name h
  | none ↦ last_entries ns name h
]

abbrev stored_deployment : Call → Option Deployment
stored_deployment (write create (deployment_body x)) = some x
stored_deployment (write update (deployment_body x)) = some x
stored_deployment _ = none

-- The annotations of the pods of the Deployment of that name, as they were last written.
abbrev last_annotations : String → String → List Call → StringMap
last_annotations ns name [] = (deployment ns name).template.annotations
last_annotations ns name (c ∷ h) = elim (stored_deployment c) [
  | some x ↦
      if x.metadata.namespace == ns && x.metadata.name == name
      then x.template.annotations
      else last_annotations ns name h
  | none ↦ last_annotations ns name h
]

abbrev pub config_map_in : Bool → List Call → String → String → Result ConfigMap
config_map_in at_first ws ns name =
    if present (the_config_map ns name) at_first ws
    then ok (record (config_map ns name) { entries = last_entries ns name ws })
    else err (api "NotFound")

abbrev pub deployment_in : Bool → List Call → String → String → Result Deployment
deployment_in at_first ws ns name =
    let at_start = deployment ns name in
    if present (the_deployment ns name) at_first ws
    then ok (record at_start {
      template = record (at_start.template) { annotations = last_annotations ns name ws };
    })
    else err (api "NotFound")

config_map_in-there :
    (at_first : Bool) (ws : List Call) (ns name : String) (x : ConfigMap)
    → config_map_in at_first ws ns name ≡ ok x
    → present (the_config_map ns name) at_first ws ≡ true
config_map_in-there at_first ws ns name x found =
    elim (Bool-cases (present (the_config_map ns name) at_first ws)) [
      | inl there ↦ there
      | inr gone ↦ absurd (ground arith)
    ]

pub config_map_in-IsAt :
    (at_first : Bool) (ws : List Call) (ns name : String) (x : ConfigMap)
    → config_map_in at_first ws ns name ≡ ok x
    → IsAt x.metadata ns name
config_map_in-IsAt at_first ws ns name x found =
    elim (Bool-cases (present (the_config_map ns name) at_first ws)) [
      | inl there ↦ (ground arith, ground arith)
      | inr gone ↦ absurd (ground arith)
    ]

pub config_map_in-present :
    (at_first : Bool) (ws : List Call) (ns name : String)
    → (present (the_config_map ns name) at_first ws ≡ true)
      ↔ ((x : ConfigMap) × (config_map_in at_first ws ns name ≡ ok x))
config_map_in-present at_first ws ns name = (
  (λ there. (record (config_map ns name) { entries = last_entries ns name ws }, ground arith)),
  (λ (x, found). config_map_in-there at_first ws ns name x found),
)

deployment_in-there :
    (at_first : Bool) (ws : List Call) (ns name : String) (x : Deployment)
    → deployment_in at_first ws ns name ≡ ok x
    → present (the_deployment ns name) at_first ws ≡ true
deployment_in-there at_first ws ns name x found =
    elim (Bool-cases (present (the_deployment ns name) at_first ws)) [
      | inl there ↦ there
      | inr gone ↦ absurd (ground arith)
    ]

pub deployment_in-IsAt :
    (at_first : Bool) (ws : List Call) (ns name : String) (x : Deployment)
    → deployment_in at_first ws ns name ≡ ok x
    → IsAt x.metadata ns name
deployment_in-IsAt at_first ws ns name x found =
    elim (Bool-cases (present (the_deployment ns name) at_first ws)) [
      | inl there ↦ (ground arith, ground arith)
      | inr gone ↦ absurd (ground arith)
    ]

pub deployment_in-present :
    (at_first : Bool) (ws : List Call) (ns name : String)
    → (present (the_deployment ns name) at_first ws ≡ true)
      ↔ ((x : Deployment) × (deployment_in at_first ws ns name ≡ ok x))
deployment_in-present at_first ws ns name = (
  (λ there.
      let at_start = deployment ns name in
      (
        record at_start {
          template = record (at_start.template) { annotations = last_annotations ns name ws };
        },
        ground arith,
      )),
  (λ (x, found). deployment_in-there at_first ws ns name x found),
)

pub config_map_in-stored :
    (at_first : Bool) (ws : List Call) (ns name : String) (x y : ConfigMap)
    → config_map_in at_first ws ns name ≡ ok x
    → y.metadata ≡ x.metadata
    → (z : ConfigMap) × (config_map_in at_first (config_map_update y ∷ ws) ns name ≡ ok z)
      × (z.entries ≡ y.entries)
config_map_in-stored at_first ws ns name x y found same =
    elim (Bool-cases (present (the_config_map ns name) at_first ws)) [
      | inr gone ↦ absurd (ground arith)
      | inl there ↦
          let ns_same : x.metadata.namespace ≡ ns = ground arith in
          let name_same : x.metadata.name ≡ name = ground arith in
          (
            record (config_map ns name) { entries = y.entries },
            ground (arith, same, ns_same, name_same, eq_refl ns, eq_refl name),
            refl,
          )
    ]

pub deployment_in-stored :
    (at_first : Bool) (ws : List Call) (ns name : String) (x y : Deployment)
    → deployment_in at_first ws ns name ≡ ok x
    → y.metadata ≡ x.metadata
    → (z : Deployment) × (deployment_in at_first (deployment_update y ∷ ws) ns name ≡ ok z)
      × (z.template.annotations ≡ y.template.annotations)
deployment_in-stored at_first ws ns name x y found same =
    let at_start = deployment ns name in
    elim (Bool-cases (present (the_deployment ns name) at_first ws)) [
      | inr gone ↦ absurd (ground arith)
      | inl there ↦
          let ns_same : x.metadata.namespace ≡ ns = ground arith in
          let name_same : x.metadata.name ≡ name = ground arith in
          (
            record at_start {
              template = record (at_start.template) { annotations = y.template.annotations };
            },
            ground (arith, same, ns_same, name_same, eq_refl ns, eq_refl name),
            refl,
          )
    ]
