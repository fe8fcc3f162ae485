-- ===== src/Kube/Conditions.antt =====
-- What the sources rely on of meta.SetStatusCondition and Semantic.DeepEqual.
use opensearch_dataprepper_k.Common.{◌≡◌, ◌≢◌, List, true}
use opensearch_dataprepper_k.Kube.Objects.{Condition}
use opensearch_dataprepper_k.Kube.Client.{Machinery}
use opensearch_dataprepper_k.Api.{ClusterStatus}

-- The conditions hold this one, so that setting it changes nothing.
abbrev pub Holds : Machinery → List Condition → Condition → Type 0
Holds lib cs c = lib.set_status_condition cs c ≡ cs

pub record ConditionLaws (lib : Machinery) : Type 0 where
  -- Setting a condition makes the conditions hold it: a condition whose status does not change keeps its
  -- transition time.
  pub set : (cs : List Condition) (c : Condition) → Holds lib (lib.set_status_condition cs c) c
  -- Setting a condition of another type leaves a held condition alone.
  pub keep :
      (cs : List Condition) (a b : Condition)
      → a.type ≢ b.type
      → Holds lib cs a
      → Holds lib (lib.set_status_condition cs b) a
  -- Equality is reflexive.
  pub same_conditions : (cs : List Condition) → lib.equal_conditions cs cs ≡ true
  pub same_status : (s : ClusterStatus) → lib.equal_cluster_status s s ≡ true
