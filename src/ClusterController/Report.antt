-- ===== src/ClusterController/Report.antt =====
-- What the status of a cluster says, and that it is written once.
use opensearch_dataprepper_k.Common.{
  ◌≡◌, refl, ◌≢◌, ◌↔◌, ap, ◌∙◌, List, ◌∷◌, Bool, ◌&&◌, true, false, arith, ℤ, pos, negsuc, int_lt,
  int_le, int_eq,
}
use opensearch_dataprepper_k.PipelineController.Status.{status_text}
use opensearch_dataprepper_k.Kube.Result.{ok}
use opensearch_dataprepper_k.Kube.Objects.{Deployment}
use opensearch_dataprepper_k.Kube.Client.{
  Server, Machinery, Call, get, list, deployments, pipelines,
}
use opensearch_dataprepper_k.Kube.Conditions.{Holds, ConditionLaws}
use opensearch_dataprepper_k.Api.{Cluster, ClusterPhase, Pipeline}
use opensearch_dataprepper_k.ClusterController.Status.{
  is_ready, is_degraded, cluster_phase, new_condition, ready_condition, progressing_condition,
  degraded_condition, desired_conditions, desired_status, reconcile_status,
}

and_true : {a b : Bool} → (a && b) ≡ true → (a ≡ true) × (b ≡ true)
and_true {a} {b} e = ground arith

and_false : (a : Bool) → (a && false) ≡ false
and_false true = refl
and_false false = refl

not_both :
    (replicas ready : ℤ)
    → int_lt (pos 0) replicas ≡ true
    → int_le replicas ready ≡ true
    → int_eq ready (pos 0) ≡ false
not_both (pos a) (pos b) l k = ground arith
not_both (pos a) (negsuc b) l k = ground arith
not_both (negsuc a) (pos b) l k = ground arith
not_both (negsuc a) (negsuc b) l k = ground arith

exclusive :
    (c : Cluster) (deploy : Deployment) → is_ready c deploy ≡ true → is_degraded deploy ≡ false
unfolding is_ready is_degraded
exclusive c deploy e =
    let (positive, enough) = and_true e in
    let some_ready = not_both c.spec.replicas deploy.status.ready_replicas positive enough in
    rw some_ready (and_false (int_lt (pos 0) deploy.status.unavailable_replicas))

Agree : Bool → Bool → Type 0
Agree ready degraded =
    ((cluster_phase ready degraded ≡ ClusterPhase.ready) ↔ (status_text ready ≡ "True"))
    × ((cluster_phase ready degraded ≡ ClusterPhase.degraded) ↔ (status_text degraded ≡ "True"))
    × ¬ ((status_text ready ≡ "True") × (status_text degraded ≡ "True"))

phase_agrees : (ready degraded : Bool) → (ready ≡ true → degraded ≡ false) → Agree ready degraded
unfolding cluster_phase Agree
phase_agrees true true one = cc (one refl)
phase_agrees true false one = (((λ e. refl), (λ e. refl)), ((λ e. cc), (λ e. cc)), (λ (a, b). cc))
phase_agrees false true one = (((λ e. cc), (λ e. cc)), ((λ e. refl), (λ e. refl)), (λ (a, b). cc))
phase_agrees false false one = (((λ e. cc), (λ e. cc)), ((λ e. cc), (λ e. cc)), (λ (a, b). cc))

-- The phase of the status that the controller desires is ready exactly when the condition Ready is
-- True, and degraded exactly when the condition Degraded is; the two conditions are never both True.
pub phase-conditions :
    (lib : Machinery) (c : Cluster) (deploy : Deployment) (items : List Pipeline)
    → (((desired_status lib c deploy items).phase ≡ ClusterPhase.ready)
        ↔ ((ready_condition c deploy).status ≡ "True"))
      × (((desired_status lib c deploy items).phase ≡ ClusterPhase.degraded)
          ↔ ((degraded_condition c deploy).status ≡ "True"))
      × ¬ (
          ((ready_condition c deploy).status ≡ "True")
          × ((degraded_condition c deploy).status ≡ "True"))
unfolding desired_status ready_condition degraded_condition new_condition Agree
phase-conditions lib c deploy items =
    phase_agrees (is_ready c deploy) (is_degraded deploy) (exclusive c deploy)

types_differ :
    (c : Cluster) (deploy : Deployment)
    → ((ready_condition c deploy).type ≢ (progressing_condition c deploy).type)
      × ((ready_condition c deploy).type ≢ (degraded_condition c deploy).type)
      × ((progressing_condition c deploy).type ≢ (degraded_condition c deploy).type)
unfolding ready_condition progressing_condition degraded_condition new_condition
types_differ c deploy = ((λ e. cc), (λ e. cc), (λ e. cc))

module _ (lib : Machinery) (c : Cluster) (deploy : Deployment) (items : List Pipeline) where
  -- The cluster as a write of its status leaves it.
  abbrev pub reported : Cluster
  reported = record c { status = desired_status lib c deploy items }

  conditions_kept :
      ConditionLaws lib → desired_conditions lib reported deploy ≡ desired_conditions lib c deploy
  unfolding desired_status desired_conditions ready_condition progressing_condition
      degraded_condition is_ready
  conditions_kept laws =
      let (rp, rd, pd) = types_differ c deploy in
      let r = ready_condition c deploy in
      let p = progressing_condition c deploy in
      let d = degraded_condition c deploy in
      let one = lib.set_status_condition c.status.conditions r in
      let two = lib.set_status_condition one p in
      let three = lib.set_status_condition two d in
      let has_r : Holds lib three r =
        laws.keep two r d rd (laws.keep one r p rp (laws.set c.status.conditions r)) in
      let has_p : Holds lib three p = laws.keep two p d pd (laws.set one p) in
      ap (λ x. lib.set_status_condition (lib.set_status_condition x p) d) has_r
      ∙ ap (λ x. lib.set_status_condition x d) has_p
      ∙ laws.set two d

  -- Where setting a condition is idempotent and equality is reflexive, a second report of the same
  -- Deployment and the same pipelines, on the cluster with the status that the first report writes,
  -- only reads.
  pub reconcile_status_settles :
      (api : Server) (h : List Call)
      → ConditionLaws lib
      → api.deployment h c.metadata.namespace c.metadata.name ≡ ok deploy
      → api.pipeline_list
          (get deployments c.metadata.namespace c.metadata.name ∷ h)
          c.metadata.namespace
        ≡ ok items
      → reconcile_status lib api reported h ≡ (
        ok tt,
        list pipelines c.metadata.namespace
            ∷ get deployments c.metadata.namespace c.metadata.name
            ∷ h,
      )
  unfolding reconcile_status desired_status is_ready
  reconcile_status_settles api h laws d l =
      ground (arith, conditions_kept laws, laws.same_status (desired_status lib c deploy items))
