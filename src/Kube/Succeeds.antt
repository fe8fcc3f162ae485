-- ===== src/Kube/Succeeds.antt =====
-- A sequence of two handlers succeeds only if both do.
use opensearch_dataprepper_k.Common.{◌≡◌, refl, List, arith}
use opensearch_dataprepper_k.Kube.Result.{Result, ok, err}
use opensearch_dataprepper_k.Kube.Client.{Call, M, next, ◌>>=◌}

module _ {ℓ κ} {A : Type ℓ} {B : Type κ} where
  next-succeeds :
      (f : A → M B) (r : Result A × List Call) (b : B) (h' : List Call)
      → next f r ≡ (ok b, h')
      → (a : A) × (h1 : List Call) × (r ≡ (ok a, h1)) × (f a h1 ≡ (ok b, h'))
  next-succeeds f (ok a, h1) b h' e = (a, h1, refl, e)
  next-succeeds f (err x, h1) b h' e = absurd (ground arith)

  pub bind-succeeds :
      (m : M A) (f : A → M B) (h h' : List Call) (b : B)
      → (m >>= f) h ≡ (ok b, h')
      → (a : A) × (h1 : List Call) × (m h ≡ (ok a, h1)) × (f a h1 ≡ (ok b, h'))
  bind-succeeds m f h h' b e = next-succeeds f (m h) b h' e
