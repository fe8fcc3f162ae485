-- ===== src/ClusterController/Mounts.antt =====
-- What the Deployment mounts where Data Prepper reads its configuration.
use mathlib.Core.List.{append_assoc}
use opensearch_dataprepper_k.Common.{
  String, ◌≡◌, refl, ap, sym, ◌≢◌, List, [], ◌∷◌, ◌++◌, Option, none, some, eq_iff, if◌then◌else◌,
  ◌==◌, ◌<>◌, arith,
}
use opensearch_dataprepper_k.Kube.Objects.{Volume, VolumeMount, VolumeSource, config_map}
use opensearch_dataprepper_k.Api.{Cluster}
use opensearch_dataprepper_k.ClusterController.Deployments.{
  desired_volumes, desired_volume_mounts, server_config_map_name,
}

-- The source of the first volume of that name.
abbrev volume_source : String → List Volume → Option VolumeSource
volume_source name [] = none
volume_source name (v ∷ vs) = if v.name == name then some v.source else volume_source name vs

abbrev with_sub_path : String → Option VolumeSource → Option (VolumeSource × String)
with_sub_path sub_path none = none
with_sub_path sub_path (some source) = some (source, sub_path)

-- What the first of the mounts at that path mounts, and which file of it.
abbrev mounted : String → List VolumeMount → List Volume → Option (VolumeSource × String)
mounted path [] volumes = none
mounted path (m ∷ ms) volumes =
    if m.mount_path == path
    then with_sub_path m.sub_path (volume_source m.name volumes)
    else mounted path ms volumes

-- What the container finds at the paths that Data Prepper reads: the ConfigMap of the cluster's pipelines,
-- one file of the server configuration, of the cluster's own ConfigMap or the one that is named, and
-- the assets if a ConfigMap of them is named. Then come the mounts and the volumes of the cluster.
pub record MountsConfiguration (c : Cluster) (mounts : List VolumeMount) (volumes : List Volume)
    : Type 0 where
  pub pipelines :
      mounted "/usr/share/data-prepper/pipelines" mounts volumes
      ≡ some (config_map (c.metadata.name <> "-pipelines"), "")
  pub own_server_config :
      c.spec.server_config_map ≡ ""
      → mounted "/usr/share/data-prepper/config/data-prepper-config.yaml" mounts volumes
        ≡ some (config_map (c.metadata.name <> "-peer-config"), "data-prepper-config.yaml")
  pub named_server_config :
      c.spec.server_config_map ≢ ""
      → mounted "/usr/share/data-prepper/config/data-prepper-config.yaml" mounts volumes
        ≡ some (config_map c.spec.server_config_map, "data-prepper-config.yaml")
  pub assets :
      c.spec.assets_config_map ≢ ""
      → mounted "/usr/share/data-prepper/assets" mounts volumes
        ≡ some (config_map c.spec.assets_config_map, "")
  pub extra_mounts : (own : List VolumeMount) × (mounts ≡ own ++ c.spec.extra_volume_mounts)
  pub extra_volumes : (own : List Volume) × (volumes ≡ own ++ c.spec.extra_volumes)

behind_own :
    {A : Type 0} (x y : A) (a e : List A)
    → (own : List A) × (((x ∷ []) ++ (a ++ (y ∷ e))) ≡ (own ++ e))
behind_own x y a e = (x ∷ (a ++ (y ∷ [])), ap (λ l. x ∷ l) (sym (append_assoc a (y ∷ []) e)))

pub desired-MountsConfiguration :
    (c : Cluster) → MountsConfiguration c (desired_volume_mounts c) (desired_volumes c)
unfolding desired_volume_mounts desired_volumes server_config_map_name
desired-MountsConfiguration c = record {
  pipelines = refl;
  own_server_config = λ own. ground (arith, own, eq_iff c.spec.server_config_map "");
  named_server_config = λ named. ground (arith, named, eq_iff c.spec.server_config_map "");
  assets = λ named. ground (arith, named, eq_iff c.spec.assets_config_map "");
  extra_mounts = behind_own _ _ _ c.spec.extra_volume_mounts;
  extra_volumes = behind_own _ _ _ c.spec.extra_volumes;
}
