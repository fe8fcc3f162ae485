-- ===== src/ClusterController/Protocols.antt =====
-- The protocols that the server fills in, and an update of a Deployment so filled in.
use opensearch_dataprepper_k.Common.{
  String, ◌≡◌, refl, ap, ◌∙◌, List, [], ◌∷◌, map, ◌==◌, if◌then◌else◌, Bool-cases, inl, inr, arith,
}
use opensearch_dataprepper_k.Kube.Result.{ok, Result-cases}
use opensearch_dataprepper_k.Kube.Objects.{
  Deployment, Service, ServicePort, Container, ContainerPort,
}
use opensearch_dataprepper_k.Api.{Cluster}
use opensearch_dataprepper_k.ClusterController.Deployments.{
  update_container, update_containers, update_deployment,
}
use opensearch_dataprepper_k.ClusterController.Rollout.{
  updated_annotations_twice, updated_replicas_twice,
}

-- The protocol that the server stores for a port.
abbrev filled : String → String
filled protocol = if protocol == "" then "TCP" else protocol

abbrev pub filled_port : ServicePort → ServicePort
filled_port p = record p { protocol = filled p.protocol }

abbrev filled_container_port : ContainerPort → ContainerPort
filled_container_port p = record p { protocol = filled p.protocol }

abbrev filled_container : Container → Container
filled_container k = record k { ports = map filled_container_port k.ports }

abbrev pub filled_service : Service → Service
filled_service y = record y { ports = map filled_port y.ports }

abbrev pub with_protocols : Deployment → Deployment
with_protocols d = record d {
  template = record (d.template) { containers = map filled_container d.template.containers };
}

filled_twice : (protocol : String) → filled (filled protocol) ≡ filled protocol
filled_twice protocol = elim (Bool-cases (protocol == "")) [
  | inl missing ↦ ground (arith, missing)
  | inr given ↦ ground (arith, given)
]

ports_twice :
    (ps : List ContainerPort)
    → map filled_container_port (map filled_container_port ps) ≡ map filled_container_port ps
ports_twice [] = refl
ports_twice (p ∷ ps) =
    ap (λ s. record p { protocol = s } ∷ map filled_container_port (map filled_container_port ps))
      (filled_twice p.protocol)
    ∙ ap (λ rest. filled_container_port p ∷ rest) (ports_twice ps)

containers_twice :
    (ks : List Container) → map filled_container (map filled_container ks) ≡ map filled_container ks
containers_twice [] = refl
containers_twice (k ∷ ks) =
    ap (λ ps. record k { ports = ps } ∷ map filled_container (map filled_container ks))
      (ports_twice k.ports)
    ∙ ap (λ rest. filled_container k ∷ rest) (containers_twice ks)

update_containers-filled :
    (cs ds updated : List Container)
    → update_containers cs ds ≡ ok updated
    → (again : List Container) × (update_containers (map filled_container updated) ds ≡ ok again)
      × (map filled_container again ≡ map filled_container updated)
unfolding update_containers update_container
update_containers-filled [] ds updated e = absurd (ground arith)
update_containers-filled (k ∷ ks) [] updated e = absurd (ground arith)
update_containers-filled (k ∷ ks) (d ∷ ds) updated e =
    let same : updated ≡ update_container k d ∷ ks = ground arith in
    rw same (
      update_container k d ∷ map filled_container ks,
      refl,
      ap (λ rest. filled_container (update_container k d) ∷ rest) (containers_twice ks),
    )

-- An update by the same desired state, of a Deployment that the server has filled in, sends what the
-- server fills in to the same.
pub update-filled :
    (c : Cluster) (before desired w : Deployment)
    → update_deployment c before desired ≡ ok w
    → (z : Deployment) × (update_deployment c (with_protocols w) desired ≡ ok z)
      × (with_protocols z ≡ with_protocols w)
unfolding update_deployment
update-filled c before desired w e =
    elim (Result-cases (update_containers before.template.containers desired.template.containers)) [
      | inr (x, failed) ↦ absurd (ground arith)
      | inl (cs, made) ↦
          let (again, updated, same) =
            update_containers-filled before.template.containers desired.template.containers cs
              made in
          let z = record w { template = record (w.template) { containers = again } } in
          (
            z,
            ground (
              arith,
              e,
              updated,
              made,
              updated_annotations_twice before.template.annotations desired.template.annotations,
              updated_replicas_twice c.spec.autoscaling before.replicas desired.replicas,
            ),
            ground (arith, e, made, same),
          )
    ]
