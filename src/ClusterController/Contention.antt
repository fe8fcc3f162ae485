-- ===== src/ClusterController/Contention.antt =====
-- Two clusters whose Services have the same name.
use Prim.Native.String.{count}
use text.Mathlib.TextLemmas.{length-append}
use opensearch_dataprepper_k.Common.{
  String, ◌≡◌, ◌≢◌, refl, ◌∙◌, sym, ap, ◌⊎◌, ◌<>◌, List, [], ◌∷◌, true, Bool-cases, inl, inr, arith,
}
use opensearch_dataprepper_k.Common.Maps.{StringMap}
use opensearch_dataprepper_k.Kube.Result.{ok, Result-cases}
use opensearch_dataprepper_k.Kube.Objects.{Service}
use opensearch_dataprepper_k.Kube.Client.{
  Server, Machinery, Call, write, update, service_body, writes,
}
use opensearch_dataprepper_k.Api.{Cluster}
use opensearch_dataprepper_k.ClusterController.ConfigMaps.{new_meta, headless_service_name}
use opensearch_dataprepper_k.ClusterController.Services.{
  desired_ports, desired_selector, reconcile_service, reconcile_headless_service,
}

-- DeepEqual holds of equal selectors only.
abbrev pub ComparesSelectors : Machinery → Type 0
ComparesSelectors lib = (x y : StringMap) → lib.equal_selectors x y ≡ true → x ≡ y

module _ (api : Server) (lib : Machinery) (c : Cluster) (x : Service) (h h' : List Call) where
  headless_step :
      api.service h c.metadata.namespace (headless_service_name c) ≡ ok x
      → reconcile_headless_service api lib c h ≡ (ok tt, h')
      → (lib.equal_selectors x.selector (desired_selector c) ≡ true)
        ⊎ (writes h'
            ≡ write update (
                service_body
                  (record x { publish_not_ready_addresses = true; selector = desired_selector c }))
              ∷ writes h)
  unfolding reconcile_headless_service
  headless_step found e = elim (Bool-cases (lib.equal_selectors x.selector (desired_selector c))) [
    | inl same ↦ inl same
    | inr differ ↦
        inr
          (elim (Result-cases (
            lib.set_controller_reference c.metadata
              (new_meta (headless_service_name c) c.metadata.namespace))) [
                | inr (y, failed) ↦ absurd (ground arith)
                | inl (refs, owned) ↦ ground arith
              ])
  ]

  service_step :
      api.service h c.metadata.namespace c.metadata.name ≡ ok x
      → reconcile_service api lib c h ≡ (ok tt, h')
      → (lib.equal_selectors x.selector (desired_selector c) ≡ true)
        ⊎ (writes h'
            ≡ write update
                (service_body (record x { selector = desired_selector c; ports = desired_ports c }))
              ∷ writes h)
  unfolding reconcile_service
  service_step found e = elim (Bool-cases (lib.equal_selectors x.selector (desired_selector c))) [
    | inl same ↦ inl same
    | inr differ ↦
        inr
          (elim (Result-cases (
            lib.set_controller_reference c.metadata
              (new_meta c.metadata.name c.metadata.namespace))) [
                | inr (y, failed) ↦ absurd (ground arith)
                | inl (refs, owned) ↦ ground arith
              ])
  ]

longer : (s : String) → s ≢ s <> "-headless"
longer s e =
    let nine : count "-headless" ≡ 9 = refl in
    absurd (omega (arith, ap count e, length-append s "-headless", nine))

abbrev first_value : StringMap → String
first_value [] = ""
first_value ((k, v) ∷ m) = v

-- Where DeepEqual holds of equal selectors only, two clusters of one namespace of which the one is called like
-- the headless Service of the other contend for the Service of that name: whatever Service it
-- is, of a step for the headless Service and a step for the Service that both succeed on it, one
-- updates it to select the pods of its own cluster.
pub services_contend :
    (api : Server) (lib : Machinery) (c c' : Cluster) (x : Service) (h h1 h2 : List Call)
    → ComparesSelectors lib
    → c'.metadata.namespace ≡ c.metadata.namespace
    → c'.metadata.name ≡ headless_service_name c
    → api.service h c.metadata.namespace (headless_service_name c) ≡ ok x
    → reconcile_headless_service api lib c h ≡ (ok tt, h1)
    → reconcile_service api lib c' h ≡ (ok tt, h2)
    → (writes h1
        ≡ write update (
            service_body
              (record x { publish_not_ready_addresses = true; selector = desired_selector c }))
          ∷ writes h)
      ⊎ (writes h2
          ≡ write update
              (service_body (record x { selector = desired_selector c'; ports = desired_ports c' }))
            ∷ writes h)
services_contend api lib c c' x h h1 h2 compares ns name found e1 e2 =
    let found' : api.service h c'.metadata.namespace c'.metadata.name ≡ ok x =
      rw (ns, name) found in
    elim (headless_step api lib c x h h1 found e1) [
      | inr taken ↦ inl taken
      | inl mine ↦ elim (service_step api lib c' x h h2 found' e2) [
        | inr taken ↦ inr taken
        | inl yours ↦ absurd (
            longer c.metadata.name
              (ap first_value (sym (compares _ _ mine) ∙ compares _ _ yours) ∙ name))
      ]
    ]
