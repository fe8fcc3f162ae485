-- ===== src/ClusterController/Defaulting.antt =====
-- The Service against a server that fills in the protocol of its ports.
use opensearch_dataprepper_k.Common.{
  ◌≡◌, refl, subst, ◌≢◌, List, ◌∷◌, true, Bool-cases, inl, inr, All, arith,
}
use opensearch_dataprepper_k.Kube.Result.{ok, Result-cases}
use opensearch_dataprepper_k.Kube.Objects.{Service, ServicePort}
use opensearch_dataprepper_k.Kube.Client.{
  Server, Machinery, Call, write, update, service_body, writes,
}
use opensearch_dataprepper_k.Api.{Cluster}
use opensearch_dataprepper_k.ClusterController.ConfigMaps.{new_meta}
use opensearch_dataprepper_k.ClusterController.Services.{
  desired_ports, desired_selector, reconcile_service,
}

-- DeepEqual holds of equal ports only.
abbrev pub ComparesPorts : Machinery → Type 0
ComparesPorts lib = (x y : List ServicePort) → lib.equal_ports x y ≡ true → x ≡ y

-- The server has filled in every protocol, with "TCP" where none was given.
abbrev pub HasProtocols : Service → Type 0
HasProtocols x = All (λ p. p.protocol ≢ "") x.ports

-- Where DeepEqual holds of equal ports only and the Service that the server returns has a protocol in every
-- port, the step for the Service, if it succeeds, updates it, also when it is as an earlier
-- update left it: the port that is desired has no protocol.
pub service_rewritten :
    (api : Server) (lib : Machinery) (c : Cluster) (x : Service) (h h' : List Call)
    → ComparesPorts lib
    → api.service h c.metadata.namespace c.metadata.name ≡ ok x
    → HasProtocols x
    → reconcile_service api lib c h ≡ (ok tt, h')
    → writes h'
      ≡ write update
          (service_body (record x { selector = desired_selector c; ports = desired_ports c }))
        ∷ writes h
unfolding reconcile_service desired_ports
service_rewritten api lib c x h h' compares found has e =
    elim (Result-cases
      (lib.set_controller_reference c.metadata (new_meta c.metadata.name c.metadata.namespace))) [
        | inr (y, failed) ↦ absurd (ground arith)
        | inl (refs, owned) ↦ elim (Bool-cases (lib.equal_ports x.ports (desired_ports c))) [
          | inl same ↦ absurd (
              (subst (All λ p. p.protocol ≢ "") (compares x.ports (desired_ports c) same) has).0
                refl)
          | inr differ ↦ ground arith
        ]
      ]
