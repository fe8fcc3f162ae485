-- ===== src/Webhooks/ClusterAdmission.antt =====
-- When the cluster webhook admits a cluster.
use opensearch_dataprepper_k.Common.{
  ◌≡◌, ◌≢◌, ◌↔◌, ◌⊎◌, inl, inr, List, true, false, Option, none, some, ℤ, pos, negsuc, int_lt,
  int_le, ◌==◌, eq_iff, arith, Bool-cases,
}
use opensearch_dataprepper_k.Kube.Result.{ok, Result-cases}
use opensearch_dataprepper_k.Kube.Client.{Server, Machinery, Call}
use opensearch_dataprepper_k.Api.{Cluster, Class, AutoscalingSpec}
use opensearch_dataprepper_k.Webhooks.ClusterValidator.{
  validate, below_replicas, check_class, check_replicas,
}

-- The autoscaler may reach the number of replicas.
abbrev pub Covers : Option AutoscalingSpec → ℤ → Type 0
Covers none replicas = Unit
Covers (some a) replicas = int_le replicas a.max_replicas ≡ true

-- An image or a class, the class there if named, and an autoscaler that may reach the replicas.
abbrev pub IsAdmissible : Server → List Call → Cluster → Type 0
IsAdmissible api h c =
    ((c.spec.image ≢ "") ⊎ (c.spec.class_ref ≢ ""))
    × ((c.spec.class_ref ≡ "") ⊎ ((class : Class) × (api.class h c.spec.class_ref ≡ ok class)))
    × Covers c.spec.autoscaling c.spec.replicas

not_below : (a b : ℤ) → (int_lt a b ≡ false) ↔ (int_le b a ≡ true)
not_below (pos a) (pos b) = ground arith
not_below (pos a) (negsuc b) = ground arith
not_below (negsuc a) (pos b) = ground arith
not_below (negsuc a) (negsuc b) = ground arith

below-Covers :
    (o : Option AutoscalingSpec) (replicas : ℤ)
    → (below_replicas o replicas ≡ false) ↔ Covers o replicas
below-Covers none replicas = ground arith
below-Covers (some a) replicas = not_below a.max_replicas replicas

-- The webhook admits a cluster exactly when it has an image or names a class, the server has the class
-- if one is named, and the autoscaler's maximum, if there is one, is at least the replicas.
pub admits_iff :
    (api : Server) (lib : Machinery) (c : Cluster) (h : List Call)
    → ((validate api lib c h).0 ≡ ok tt) ↔ IsAdmissible api h c
unfolding validate check_class check_replicas
admits_iff api lib c h =
    let (covers, below) = below-Covers c.spec.autoscaling c.spec.replicas in
    elim (Bool-cases (c.spec.class_ref == "")) [
      | inl unset ↦ (
        (λ e. (
          ground (arith, eq_iff c.spec.image ""),
          inl (ground (arith, eq_iff c.spec.class_ref "")),
          covers (ground arith),
        )),
        (λ (n, f, m). ground (arith, below m, eq_iff c.spec.image "", eq_iff c.spec.class_ref "")),
      )
      | inr named ↦ elim (Result-cases (api.class h c.spec.class_ref)) [
        | inr (x, failed) ↦ (
          (λ e. absurd (ground arith)),
          (λ r. absurd (ground (arith, eq_iff c.spec.class_ref ""))),
        )
        | inl (class, found) ↦ (
          (λ e. (
            ground (arith, eq_iff c.spec.class_ref ""),
            inr (class, found),
            covers (ground arith),
          )),
          (λ (n, f, m). ground (arith, below m, eq_iff c.spec.class_ref "")),
        )
      ]
    ]
