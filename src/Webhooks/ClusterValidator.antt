-- ===== src/Webhooks/ClusterValidator.antt =====
-- internal/webhook/v1alpha1/datapreppercluster_webhook.go
use opensearch_dataprepper_k.Common.{
  String, Bool, false, Option, none, some, ℤ, int_lt, ◌&&◌, ◌==◌, if◌then◌else◌, ◌<>◌,
}
use opensearch_dataprepper_k.Go.Format.{quote, print_int}
use opensearch_dataprepper_k.Kube.Result.{ok, err, errorf, wrap}
use opensearch_dataprepper_k.Kube.Client.{
  Server, Machinery, M, pure, throw, attempt, ◌>>=◌, ◌>>◌, get_class,
}
use opensearch_dataprepper_k.Api.{Cluster, AutoscalingSpec}

-- `c.Spec.Autoscaling != nil && c.Spec.Autoscaling.MaxReplicas < c.Spec.Replicas`
abbrev pub below_replicas : Option AutoscalingSpec → ℤ → Bool
below_replicas none replicas = false
below_replicas (some as_spec) replicas = int_lt as_spec.max_replicas replicas

abbrev max_text : Option AutoscalingSpec → String
max_text none = ""
max_text (some as_spec) = print_int as_spec.max_replicas

module _ (api : Server) (lib : Machinery) where
  unfoldable pub check_class : Cluster → M (Unit {0})
  check_class c = if c.spec.class_ref == "" then pure tt else (do
    found ← attempt (get_class api c.spec.class_ref)
    elim found [
      | ok _ ↦ pure tt
      | err e ↦
          if lib.is_not_found e
          then throw (errorf ("DataPrepperClass " <> quote c.spec.class_ref <> " does not exist"))
          else throw (wrap ("looking up DataPrepperClass " <> quote c.spec.class_ref <> ": ") e)
    ])

  unfoldable pub check_replicas : Cluster → M (Unit {0})
  check_replicas c =
      if below_replicas c.spec.autoscaling c.spec.replicas
      then throw (
          errorf (
            "spec.autoscaling.maxReplicas ("
            <> max_text c.spec.autoscaling
            <> ") must be >= spec.replicas ("
            <> print_int c.spec.replicas
            <> ")"))
      else pure tt

  unfoldable pub validate : Cluster → M (Unit {0})
  unfolding check_class check_replicas
  validate c =
      if c.spec.image == "" && c.spec.class_ref == ""
      then throw (errorf "spec.image or spec.classRef must be set")
      else (do check_class c; check_replicas c)

  -- ValidateCreate, ValidateUpdate, ValidateDelete
  unfoldable pub validate_create : Cluster → M (Unit {0})
  unfolding validate
  validate_create c = validate c

  unfoldable pub validate_update : Cluster → Cluster → M (Unit {0})
  unfolding validate
  validate_update _ c = validate c

  unfoldable pub validate_delete : Cluster → M (Unit {0})
  validate_delete _ = pure tt
