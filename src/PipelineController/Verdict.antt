-- ===== src/PipelineController/Verdict.antt =====
-- When the pods of a cluster are judged healthy, and what an unhealthy verdict reports.
use mathlib.Core.List.{Memᴰ}
use opensearch_dataprepper_k.Common.{
  String, ◌≡◌, refl, ◌≢◌, ◌↔◌, ◌⊎◌, inl, inr, List, [], ◌∷◌, true, false, Option, none, some, ◌==◌,
  eq_iff, All, arith, Option-cases, Bool-cases,
}
use opensearch_dataprepper_k.Kube.Objects.{is_zero, Pod, ContainerState, ContainerStatus}
use opensearch_dataprepper_k.PipelineController.Health.{
  PodHealth, stated, container_health, containers_health, pods_health, judge_pods,
}

-- The data-prepper container neither waits nor has terminated for a stated reason.
abbrev pub IsQuiet : ContainerStatus → Type 0
IsQuiet cs =
    (cs.name == "data-prepper") ≡ true → (stated cs.waiting ≡ none) × (stated cs.terminated ≡ none)

abbrev pub PodIsQuiet : Pod → Type 0
PodIsQuiet pod = is_zero pod.metadata.deletion_timestamp ≡ true → All IsQuiet pod.container_statuses

container-IsQuiet :
    (n : String) (cs : ContainerStatus) → (container_health n cs ≡ none) ↔ IsQuiet cs
unfolding container_health
container-IsQuiet n cs = ground arith

containers-IsQuiet :
    (n : String) (l : List ContainerStatus) → (containers_health n l ≡ none) ↔ All IsQuiet l
unfolding containers_health
containers-IsQuiet n [] = ground arith
containers-IsQuiet n (cs ∷ l) = ground (arith, container-IsQuiet n cs, containers-IsQuiet n l)

pods_quiet : (pods : List Pod) → (pods_health pods ≡ none) ↔ All PodIsQuiet pods
unfolding pods_health
pods_quiet [] = ground arith
pods_quiet (pod ∷ pods) =
    ground (arith, pods_quiet pods, containers-IsQuiet pod.metadata.name pod.container_statuses)

-- The state of a listed data-prepper container, in a pod that is not being deleted, that a verdict
-- reports.
pub record IsReported (pods : List Pod) (health : PodHealth) : Type 0 where
  pub pod : Pod
  pub status : ContainerStatus
  pub state : ContainerState
  pub listed : Memᴰ pod pods
  pub live : is_zero pod.metadata.deletion_timestamp ≡ true
  pub inside : Memᴰ status pod.container_statuses
  pub named : status.name ≡ "data-prepper"
  pub stands : (status.waiting ≡ some state) ⊎ (status.terminated ≡ some state)
  pub stated : state.reason ≢ ""
  pub unhealthy : health.healthy ≡ false
  pub reason : health.reason ≡ state.reason

stated_inv :
    (o : Option ContainerState) (state : ContainerState)
    → stated o ≡ some state
    → (o ≡ some state) × (state.reason ≢ "")
stated_inv none state e = cc
stated_inv (some x) state e = ground (arith, eq_iff x.reason "")

module _ (pod : Pod) (live : is_zero pod.metadata.deletion_timestamp ≡ true) where
  container-IsReported :
      (cs : ContainerStatus) (health : PodHealth)
      → Memᴰ cs pod.container_statuses
      → container_health pod.metadata.name cs ≡ some health
      → IsReported (pod ∷ []) health
  unfolding container_health
  container-IsReported cs health m e = elim (Option-cases (stated cs.waiting)) [
    | inr (state, w) ↦ record {
      pod = pod;
      status = cs;
      state = state;
      listed = Memᴰ.head refl;
      live = live;
      inside = m;
      named = ground (arith, eq_iff cs.name "data-prepper");
      stands = inl (stated_inv cs.waiting state w).0;
      stated = (stated_inv cs.waiting state w).1;
      unhealthy = ground arith;
      reason = ground arith;
    }
    | inl quiet ↦ elim (Option-cases (stated cs.terminated)) [
      | inr (state, t) ↦ record {
        pod = pod;
        status = cs;
        state = state;
        listed = Memᴰ.head refl;
        live = live;
        inside = m;
        named = ground (arith, eq_iff cs.name "data-prepper");
        stands = inr (stated_inv cs.terminated state t).0;
        stated = (stated_inv cs.terminated state t).1;
        unhealthy = ground arith;
        reason = ground arith;
      }
      | inl done ↦ absurd (ground arith)
    ]
  ]

  containers-IsReported :
      (l : List ContainerStatus) (health : PodHealth)
      → ((cs : ContainerStatus) → Memᴰ cs l → Memᴰ cs pod.container_statuses)
      → containers_health pod.metadata.name l ≡ some health
      → IsReported (pod ∷ []) health
  unfolding containers_health
  containers-IsReported [] health sub e = cc
  containers-IsReported (cs ∷ l) health sub e =
      elim (Option-cases (container_health pod.metadata.name cs)) [
        | inr (found, f) ↦ container-IsReported cs health (sub cs (Memᴰ.head refl)) (ground arith)
        | inl quiet ↦ containers-IsReported l health (λ c m. sub c (Memᴰ.tail m)) (ground arith)
      ]

IsReported-weaken :
    (pods qs : List Pod) (health : PodHealth)
    → ((p : Pod) → Memᴰ p pods → Memᴰ p qs)
    → IsReported pods health
    → IsReported qs health
IsReported-weaken pods qs health sub r = record {
  pod = r.pod;
  status = r.status;
  state = r.state;
  listed = sub r.pod r.listed;
  live = r.live;
  inside = r.inside;
  named = r.named;
  stands = r.stands;
  stated = r.stated;
  unhealthy = r.unhealthy;
  reason = r.reason;
}

only : {A : Type 0} (a b : A) (l : List A) → Memᴰ b (a ∷ []) → Memᴰ b (a ∷ l)
only a b l (Memᴰ.head e) = Memᴰ.head e
only a b l (Memᴰ.tail m) = elim m [ ]

pods-IsReported :
    (pods : List Pod) (health : PodHealth) → pods_health pods ≡ some health → IsReported pods health
unfolding pods_health
pods-IsReported [] health e = cc
pods-IsReported (pod ∷ pods) health e =
    elim (Bool-cases (is_zero pod.metadata.deletion_timestamp)) [
      | inr deleting ↦
          IsReported-weaken pods (pod ∷ pods) health (λ p m. Memᴰ.tail m)
            (pods-IsReported pods health (ground arith))
      | inl live ↦
          elim (Option-cases (containers_health pod.metadata.name pod.container_statuses)) [
            | inr (found, f) ↦
                IsReported-weaken (pod ∷ []) (pod ∷ pods) health (λ p m. only pod p pods m)
                  (containers-IsReported pod live pod.container_statuses health (λ c m. m)
                    (ground arith))
            | inl quiet ↦
                IsReported-weaken pods (pod ∷ pods) health (λ p m. Memᴰ.tail m)
                  (pods-IsReported pods health (ground arith))
          ]
    ]

-- Pods are judged healthy exactly when there is a pod and, in every pod that is not being deleted, no
-- data-prepper container waits or has terminated for a stated reason. So a pod with no container
-- status yet counts as healthy.
pub healthy_iff :
    (pods : List Pod) → ((judge_pods pods).healthy ≡ true) ↔ ((pods ≢ []) × All PodIsQuiet pods)
unfolding judge_pods
healthy_iff [] = ground arith
healthy_iff (pod ∷ pods) = (
  (λ well. elim (Option-cases (pods_health (pod ∷ pods))) [
    | inl quiet ↦ ((λ e. cc), (pods_quiet (pod ∷ pods)).0 quiet)
    | inr (health, found) ↦
        absurd (ground (arith, (pods-IsReported (pod ∷ pods) health found).unhealthy))
  ]),
  (λ (_, quiet). rw ((pods_quiet (pod ∷ pods)).1 quiet, judge_pods)),
)

-- When there are pods and they are judged unhealthy, the reason given is the one stated for a waiting
-- or terminated data-prepper container of a listed pod that is not being deleted.
pub unhealthy-IsReported :
    (pods : List Pod)
    → pods ≢ []
    → (judge_pods pods).healthy ≡ false
    → IsReported pods (judge_pods pods)
unfolding judge_pods
unhealthy-IsReported [] n e = absurd (n refl)
unhealthy-IsReported (pod ∷ pods) n e = elim (Option-cases (pods_health (pod ∷ pods))) [
  | inl quiet ↦ absurd (ground arith)
  | inr (health, found) ↦ rw (found, judge_pods) (pods-IsReported (pod ∷ pods) health found)
]
