-- ===== src/ClusterController/Resolution.antt =====
-- Where the resolved configuration and the merged maps come from.
use opensearch_dataprepper_k.Common.{
  or_else, String, ◌≡◌, refl, ◌≢◌, ◌↔◌, ◌⊎◌, inl, inr, List, [], ◌∷◌, true, none, ◌==◌, eq_iff,
  arith, Bool-cases,
}
use opensearch_dataprepper_k.Common.Maps.{StringMap, lookup, insert, insert_all, lookup-insert}
use opensearch_dataprepper_k.Kube.Result.{ok, Result-cases}
use opensearch_dataprepper_k.Kube.Client.{Server, Call}
use opensearch_dataprepper_k.Api.{Cluster, Class}
use opensearch_dataprepper_k.ClusterController.Config.{
  ResolvedConfig, own_config, is_empty, is_empty_resources, with_class, resolve_config,
  merge_string_map,
}

-- No key stands in two entries.
abbrev pub HasDistinctKeys : StringMap → Type 0
HasDistinctKeys [] = Unit
HasDistinctKeys ((k, v) ∷ m) = (lookup k m ≡ none) × HasDistinctKeys m

lookup-insert_all :
    (over m : StringMap) (k : String)
    → HasDistinctKeys over
    → lookup k (insert_all over m) ≡ or_else (lookup k over) (lookup k m)
unfolding insert_all lookup
lookup-insert_all [] m k d = refl
lookup-insert_all ((j, v) ∷ over) m k (fresh, d) =
    ground (arith, lookup-insert_all over (insert j v m) k d, lookup-insert j k v m, eq_iff j k)

-- Where no key stands twice in either map, a merged map has the value of the overrides at each of their keys, and elsewhere that of the base.
lookup-merge_string_map :
    (base overrides : StringMap) (k : String)
    → HasDistinctKeys base
    → HasDistinctKeys overrides
    → lookup k (merge_string_map base overrides) ≡ or_else (lookup k overrides) (lookup k base)
unfolding merge_string_map lookup
lookup-merge_string_map base overrides k b o =
    ground
      (arith, lookup-insert_all overrides (insert_all base []) k o, lookup-insert_all base [] k b)

-- What a cluster can be resolved from: its own image alone, or a class with an image of either.
abbrev pub IsResolvable : Server → Cluster → List Call → Type 0
IsResolvable api c h =
    ((c.spec.class_ref ≡ "") × (c.spec.image ≢ ""))
    ⊎ ((class : Class) × (c.spec.class_ref ≢ "")
        × (api.class h c.spec.class_ref ≡ ok class)
        × ((c.spec.image ≢ "") ⊎ (class.spec.image ≢ "")))

-- A configuration is resolved exactly when the cluster names no class and has an image, or names a
-- class that the server has and the cluster or the class has an image.
resolves_iff :
    (api : Server) (c : Cluster) (h : List Call)
    → ((cfg : ResolvedConfig) × ((resolve_config api c h).0 ≡ ok cfg)) ↔ IsResolvable api c h
unfolding resolve_config
resolves_iff api c h = elim (Bool-cases (c.spec.class_ref == "")) [
  | inl unset ↦ (
    (λ (cfg, e). ground (arith, eq_iff c.spec.class_ref "", eq_iff c.spec.image "")),
    (λ r. (own_config c, ground (arith, eq_iff c.spec.class_ref "", eq_iff c.spec.image ""))),
  )
  | inr named ↦ elim (Result-cases (api.class h c.spec.class_ref)) [
    | inr (x, failed) ↦ (
      (λ (cfg, e). absurd (ground arith)),
      (λ r. absurd (ground (arith, eq_iff c.spec.class_ref ""))),
    )
    | inl (class, found) ↦ (
      (λ (cfg, e). inr (
        class,
        ground (arith, eq_iff c.spec.class_ref ""),
        found,
        ground (arith, eq_iff c.spec.image "", eq_iff class.spec.image ""),
      )),
      (λ r. (
        with_class (own_config c) class,
        ground
            (arith, eq_iff c.spec.class_ref "", eq_iff c.spec.image "", eq_iff class.spec.image ""),
      )),
    )
  ]
]

-- A resolved configuration has an image, and whatever the class says it has the cluster's own image,
-- resources and environment, each unless it is empty.
own_settings_win :
    (api : Server) (c : Cluster) (cfg : ResolvedConfig) (h h' : List Call)
    → resolve_config api c h ≡ (ok cfg, h')
    → (cfg.image ≢ "")
      × ((c.spec.image ≡ "") ⊎ (cfg.image ≡ c.spec.image))
      × ((is_empty_resources c.spec.resources ≡ true) ⊎ (cfg.resources ≡ c.spec.resources))
      × ((is_empty c.spec.env_from ≡ true) ⊎ (cfg.env_from ≡ c.spec.env_from))
unfolding resolve_config
own_settings_win api c cfg h h' e = elim (Bool-cases (c.spec.class_ref == "")) [
  | inl unset ↦ (
    ground (arith, eq_iff c.spec.image ""),
    inr (ground arith),
    inr (ground arith),
    inr (ground arith),
  )
  | inr named ↦ elim (Result-cases (api.class h c.spec.class_ref)) [
    | inr (x, failed) ↦ absurd (ground arith)
    | inl (found, f) ↦ (
      ground (arith, eq_iff cfg.image "", eq_iff c.spec.image "", eq_iff found.spec.image ""),
      ground (arith, eq_iff c.spec.image ""),
      ground arith,
      ground arith,
    )
  ]
]
