-- ===== src/Tests/Machinery.antt =====
-- Library functions to run the handlers on, and that they keep the laws.
use opensearch_dataprepper_k.Common.{
  int_eq_refl, String, ◌≡◌, refl, ◌≢◌, List, [], ◌∷◌, Bool, true, false, ◌==◌, eq_iff, eq_refl,
  int_eq, if◌then◌else◌, any, ◌&&◌, ◌<>◌, arith,
}
use opensearch_dataprepper_k.Common.Maps.{value}
use opensearch_dataprepper_k.Kube.Result.{Error, api, ok}
use opensearch_dataprepper_k.Kube.Objects.{Condition}
use opensearch_dataprepper_k.Kube.Client.{Machinery}
use opensearch_dataprepper_k.Kube.Conditions.{Holds, ConditionLaws}
use opensearch_dataprepper_k.PipelineController.Order.{MarshalsEntries}

abbrev not_found : Error → Bool
not_found (api text) = text == "NotFound"
not_found _ = false

abbrev set_condition : List Condition → Condition → List Condition
set_condition [] c = c ∷ []
set_condition (x ∷ xs) c = if x.type == c.type then c ∷ xs else x ∷ set_condition xs c

abbrev remove : List String → String → List String
remove [] f = []
remove (x ∷ xs) f = if x == f then remove xs f else x ∷ remove xs f

abbrev same_condition : Condition → Condition → Bool
same_condition a b =
    a.type == b.type && a.status == b.status && a.reason == b.reason && a.message == b.message

abbrev same_conditions : List Condition → List Condition → Bool
same_conditions [] [] = true
same_conditions (a ∷ x) (b ∷ y) = same_condition a b && same_conditions x y
same_conditions _ _ = false

-- The marshalled text is made of the values under two keys.
abbrev pub machinery : Machinery
machinery = record {
  is_not_found = not_found;
  is_no_match_error = λ e. false;
  set_controller_reference = λ owner m.
      ok (record { kind = "DataPrepperCluster"; name = owner.name; uid = owner.uid } ∷ []);
  set_status_condition = set_condition;
  contains_finalizer = λ l f. any (λ x. x == f) l;
  add_finalizer = λ l f. f ∷ l;
  remove_finalizer = remove;
  equal_ports = λ x y. false;
  equal_selectors = λ x y. false;
  equal_conditions = same_conditions;
  equal_cluster_status = λ s t.
      same_conditions s.conditions t.conditions
      && int_eq s.ready_replicas t.ready_replicas
      && int_eq s.pipelines t.pipelines;
  equal_autoscaler_spec = λ x y. false;
  equal_fields = λ x y. false;
  nested_spec = λ m. m.content;
  set_nested_spec = λ m f. ok (record m { content = f });
  yaml_marshal = λ m. ok (value m "alpha" <> value m "beta");
}

pub machinery-MarshalsEntries : MarshalsEntries machinery
machinery-MarshalsEntries m n same = rw (same "alpha", same "beta", value)

same_condition_refl : (a : Condition) → same_condition a a ≡ true
same_condition_refl a =
    ground (arith, eq_refl a.type, eq_refl a.status, eq_refl a.reason, eq_refl a.message)

same_conditions_refl : (cs : List Condition) → same_conditions cs cs ≡ true
same_conditions_refl [] = refl
same_conditions_refl (a ∷ cs) = ground (arith, same_condition_refl a, same_conditions_refl cs)

set_twice : (cs : List Condition) (c : Condition) → Holds machinery (set_condition cs c) c
set_twice [] c = ground (arith, eq_refl c.type)
set_twice (x ∷ cs) c = ground (arith, eq_refl c.type, eq_iff x.type c.type, set_twice cs c)

set_other :
    (cs : List Condition) (a b : Condition)
    → a.type ≢ b.type
    → Holds machinery cs a
    → Holds machinery (set_condition cs b) a
set_other [] a b n e = ground (arith, eq_iff a.type b.type)
set_other (x ∷ cs) a b n e =
    ground (
      arith,
      n,
      eq_iff x.type a.type,
      eq_iff x.type b.type,
      eq_iff b.type a.type,
      set_other cs a b n,
    )

pub machinery-ConditionLaws : ConditionLaws machinery
machinery-ConditionLaws = record {
  set = set_twice;
  keep = set_other;
  same_conditions = same_conditions_refl;
  same_status = λ s. ground (
    arith,
    same_conditions_refl s.conditions,
    int_eq_refl s.ready_replicas,
    int_eq_refl s.pipelines,
  );
}
