-- ===== src/Webhooks/Lifecycle.antt =====
-- The pipelines of a namespace as requests, one after the other, change them.
use opensearch_dataprepper_k.Common.{
  ℕ, suc, String, ◌≡◌, List, [], ◌∷◌, false, some, ◌==◌, All, Each, arith, Bool-cases, inl, inr,
  if◌then◌else◌,
}
use opensearch_dataprepper_k.Common.Maps.{Map}
use opensearch_dataprepper_k.Kube.Result.{ok}
use opensearch_dataprepper_k.Kube.Client.{Server, Call}
use opensearch_dataprepper_k.Api.{Pipeline}
use opensearch_dataprepper_k.PipelineController.Render.{collect}
use opensearch_dataprepper_k.PipelineController.Collect.{targets, Apart}
use opensearch_dataprepper_k.PipelineController.Listing.{without, All-without, Each-without}
use opensearch_dataprepper_k.PipelineController.Order.{collect-succeeds_iff}
use opensearch_dataprepper_k.Webhooks.PipelineValidator.{validate}
use opensearch_dataprepper_k.Webhooks.Admission.{stored, AllMergeable, admitted-AllMergeable}

-- A pipeline with a finalizer is marked when it is to be deleted.
abbrev pub marked : ℕ → Pipeline → Pipeline
marked t p = record p { metadata = record (p.metadata) { deletion_timestamp = some (suc t) } }

unfoldable pub mark : String → ℕ → List Pipeline → List Pipeline
mark name t [] = []
mark name t (p ∷ ps) =
    let rest = mark name t ps in if p.metadata.name == name then marked t p ∷ rest else p ∷ rest

-- One request: the webhook admits a pipeline, which is stored; a pipeline is marked; one goes.
pub data Step : List Pipeline → List Pipeline → Type 0 where
  admit :
      (api : Server) (p : Pipeline) (h h' : List Call) (items : List Pipeline)
      → api.pipeline_list h p.metadata.namespace ≡ ok items
      → validate (some api) p h ≡ (ok tt, h')
      → Step items (stored p items)
  delete : (name : String) (t : ℕ) (items : List Pipeline) → Step items (mark name t items)
  remove : (name : String) (items : List Pipeline) → Step items (without name items)

-- Requests one after the other, each on what the one before left.
pub data Run : List Pipeline → Type 0 where
  start : Run []
  more : (items next : List Pipeline) → Run items → Step items next → Run next

All-mark :
    (P : Pipeline → Type 0) (name : String) (t : ℕ) (ps : List Pipeline)
    → ((p : Pipeline) → P (marked t p))
    → All P ps
    → All P (mark name t ps)
unfolding mark
All-mark P name t [] any k = tt
All-mark P name t (p ∷ ps) any (kp, k) = elim (Bool-cases (p.metadata.name == name)) [
  | inl same ↦ rw (same, mark) (any p, All-mark P name t ps any k)
  | inr other ↦ rw (other, mark) (kp, All-mark P name t ps any k)
]

module _ (cluster_ref : String) where
  marked_off : (t : ℕ) (p : Pipeline) → targets cluster_ref "" (marked t p) ≡ false
  marked_off t p = ground arith

  Apart-marked : (t : ℕ) (p q : Pipeline) → Apart cluster_ref "" p (marked t q)
  Apart-marked t p q tp tq e = absurd (ground (arith, marked_off t q))

  marked-Apart :
      (t : ℕ) (p : Pipeline) (qs : List Pipeline) → All (Apart cluster_ref "" (marked t p)) qs
  marked-Apart t p [] = tt
  marked-Apart t p (q ∷ qs) =
      ((λ tp tq e. absurd (ground (arith, marked_off t p))), marked-Apart t p qs)

  Each-mark :
      (name : String) (t : ℕ) (ps : List Pipeline)
      → Each (Apart cluster_ref "") ps
      → Each (Apart cluster_ref "") (mark name t ps)
  unfolding mark
  Each-mark name t [] k = tt
  Each-mark name t (p ∷ ps) (kp, k) = elim (Bool-cases (p.metadata.name == name)) [
    | inl same ↦ rw (same, mark) (marked-Apart t p (mark name t ps), Each-mark name t ps k)
    | inr other ↦
        rw (other, mark)
          (All-mark (Apart cluster_ref "" p) name t ps (Apart-marked t p) kp, Each-mark name t ps k)
  ]

Step-AllMergeable :
    (items next : List Pipeline) → Step items next → AllMergeable items → AllMergeable next
Step-AllMergeable items next (Step.admit api p h h' _ l e) m =
    admitted-AllMergeable api p h h' items l e m
Step-AllMergeable items next (Step.delete name t _) m = λ cluster_ref. record {
  renderable =
      All-mark _ name t items (λ p live. absurd (ground (arith, marked_off cluster_ref t p)))
        (m cluster_ref).renderable;
  apart = Each-mark cluster_ref name t items (m cluster_ref).apart;
}
Step-AllMergeable items next (Step.remove name _) m = λ cluster_ref. record {
  renderable = All-without _ name items (m cluster_ref).renderable;
  apart = Each-without _ name items (m cluster_ref).apart;
}

Run-AllMergeable : (ps : List Pipeline) → Run ps → AllMergeable ps
Run-AllMergeable ps Run.start = λ cluster_ref. record { renderable = tt; apart = tt }
Run-AllMergeable ps (Run.more items _ before step) =
    Step-AllMergeable items ps step (Run-AllMergeable items before)

-- However the pipelines of a namespace have come about by requests one after the other, each admitted
-- on a listing of what the one before left, the loop of a rebuild succeeds for every cluster.
pub Run-collect :
    (ps : List Pipeline) (cluster_ref : String)
    → Run ps
    → (d : Map String) × (collect cluster_ref "" ps [] ≡ ok d)
Run-collect ps cluster_ref run =
    (collect-succeeds_iff cluster_ref "" ps).1 (Run-AllMergeable ps run cluster_ref)
