-- ===== src/Kube/Settles.antt =====
-- A handler that returns a value and makes known writes, whatever was called before.
use opensearch_dataprepper_k.Common.{◌≡◌, ap, ◌∙◌, List, [], ◌∷◌, ◌++◌}
use opensearch_dataprepper_k.Kube.Result.{ok}
use opensearch_dataprepper_k.Kube.Client.{Call, M, ◌>>=◌, next, writes}

pub record Settles {ℓ} {A : Type ℓ} (m : M A) (a : A) (ws : List Call) : Type ℓ where
  pub at : (h : List Call) → (h' : List Call) × (m h ≡ (ok a, h')) × (writes h' ≡ ws ++ writes h)

module _ {ℓ κ} {A : Type ℓ} {B : Type κ} {a : A} {b : B} (m : M A) (f : A → M B) where
  -- A silent part first.
  pub silent_then : (ws : List Call) → Settles m a [] → Settles (f a) b ws → Settles (m >>= f) b ws
  silent_then ws first second = record {
    at = λ h.
        let (h1, e1, w1) = first.at h in
        let (h2, e2, w2) = second.at h1 in (h2, ap (next f) e1 ∙ e2, w2 ∙ ap (λ x. ws ++ x) w1);
  }

  -- One write more.
  pub then_writes :
      (w : Call) (ws : List Call)
      → Settles m a ws
      → Settles (f a) b (w ∷ [])
      → Settles (m >>= f) b (w ∷ ws)
  then_writes w ws first second = record {
    at = λ h.
        let (h1, e1, w1) = first.at h in
        let (h2, e2, w2) = second.at h1 in (h2, ap (next f) e1 ∙ e2, w2 ∙ ap (λ x. w ∷ x) w1);
  }

  -- A silent part last.
  pub then_silent : (ws : List Call) → Settles m a ws → Settles (f a) b [] → Settles (m >>= f) b ws
  then_silent ws first second = record {
    at = λ h.
        let (h1, e1, w1) = first.at h in
        let (h2, e2, w2) = second.at h1 in (h2, ap (next f) e1 ∙ e2, w2 ∙ w1);
  }
