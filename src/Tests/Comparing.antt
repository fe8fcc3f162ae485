-- ===== src/Tests/Comparing.antt =====
-- DeepEqual at the types that the cluster controller compares.
use opensearch_dataprepper_k.Common.{
  ℤ, pos, negsuc, int_eq, ◌≡◌, refl, ap, List, [], ◌∷◌, Bool, true, false, ◌&&◌, ◌==◌, arith,
  eq_iff, Option, none, some,
}
use opensearch_dataprepper_k.Common.Maps.{StringMap}
use opensearch_dataprepper_k.Kube.Objects.{
  ServicePort, IntOrString, int, str, MetricSpec, AutoscalerSpec, Value, Fields, Items, text,
  object, array, end, field, nil, item,
}
use opensearch_dataprepper_k.Kube.Client.{Machinery}
use opensearch_dataprepper_k.Tests.Machinery.{machinery}

abbrev same_target : IntOrString → IntOrString → Bool
same_target (int a) (int b) = int_eq a b
same_target (str a) (str b) = a == b
same_target _ _ = false

abbrev same_port : ServicePort → ServicePort → Bool
same_port p q =
    p.name == q.name
    && int_eq p.port q.port
    && same_target p.target_port q.target_port
    && p.protocol == q.protocol

abbrev pub same_ports : List ServicePort → List ServicePort → Bool
same_ports [] [] = true
same_ports (p ∷ ps) (q ∷ qs) = same_port p q && same_ports ps qs
same_ports _ _ = false

int_eq_sound : (a b : ℤ) → int_eq a b ≡ true → a ≡ b
int_eq_sound (pos a) (pos b) e = ground arith
int_eq_sound (pos a) (negsuc b) e = ground arith
int_eq_sound (negsuc a) (pos b) e = ground arith
int_eq_sound (negsuc a) (negsuc b) e = ground arith

same_target_sound : (a b : IntOrString) → same_target a b ≡ true → a ≡ b
same_target_sound (int a) (int b) e = ap int (int_eq_sound a b e)
same_target_sound (str a) (str b) e = ground (arith, eq_iff a b)
same_target_sound (int a) (str b) e = ground arith
same_target_sound (str a) (int b) e = ground arith

pub same_ports_sound : (x y : List ServicePort) → same_ports x y ≡ true → x ≡ y
same_ports_sound [] [] e = refl
same_ports_sound [] (q ∷ qs) e = ground arith
same_ports_sound (p ∷ ps) [] e = ground arith
same_ports_sound (p ∷ ps) (q ∷ qs) e = ground (
  arith,
  same_ports_sound ps qs,
  eq_iff p.name q.name,
  eq_iff p.protocol q.protocol,
  int_eq_sound p.port q.port,
  same_target_sound p.target_port q.target_port,
)

abbrev pub same_selector : StringMap → StringMap → Bool
same_selector [] [] = true
same_selector ((k, v) ∷ m) ((l, w) ∷ n) = k == l && v == w && same_selector m n
same_selector _ _ = false

pub same_selector_sound : (x y : StringMap) → same_selector x y ≡ true → x ≡ y
same_selector_sound [] [] e = refl
same_selector_sound [] (q ∷ n) e = ground arith
same_selector_sound (p ∷ m) [] e = ground arith
same_selector_sound ((k, v) ∷ m) ((l, w) ∷ n) e =
    ground (arith, same_selector_sound m n, eq_iff k l, eq_iff v w)

abbrev same_number : Option ℤ → Option ℤ → Bool
same_number none none = true
same_number (some a) (some b) = int_eq a b
same_number _ _ = false

abbrev same_metrics : List MetricSpec → List MetricSpec → Bool
same_metrics [] [] = true
same_metrics (m ∷ ms) (n ∷ ns) =
    m.type == n.type
    && m.resource == n.resource
    && m.target_type == n.target_type
    && same_number m.average_utilization n.average_utilization
    && same_metrics ms ns
same_metrics _ _ = false

abbrev same_autoscaler_spec : AutoscalerSpec → AutoscalerSpec → Bool
same_autoscaler_spec a b =
    a.target_api_version == b.target_api_version
    && a.target_kind == b.target_kind
    && a.target_name == b.target_name
    && same_number a.min_replicas b.min_replicas
    && int_eq a.max_replicas b.max_replicas
    && same_metrics a.metrics b.metrics
    && a.behavior == b.behavior

unfoldable mutual
  same_value : Value → Value → Bool
  same_value (text a) (text b) = a == b
  same_value (object a) (object b) = same_fields a b
  same_value (array a) (array b) = same_items a b
  same_value _ _ = false

  pub same_fields : Fields → Fields → Bool
  same_fields end end = true
  same_fields (field k v r) (field l w s) = k == l && same_value v w && same_fields r s
  same_fields _ _ = false

  same_items : Items → Items → Bool
  same_items nil nil = true
  same_items (item v r) (item w s) = same_value v w && same_items r s
  same_items _ _ = false

abbrev pub comparing : Machinery
comparing = record machinery {
  equal_ports = same_ports;
  equal_selectors = same_selector;
  equal_autoscaler_spec = same_autoscaler_spec;
  equal_fields = same_fields;
}
