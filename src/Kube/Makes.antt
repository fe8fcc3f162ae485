-- ===== src/Kube/Makes.antt =====
-- Every call that a handler makes meets a predicate.
use opensearch_dataprepper_k.Common.{List, All}
use opensearch_dataprepper_k.Kube.Result.{Result, ok, err}
use opensearch_dataprepper_k.Kube.Client.{Call, M, lift, next, ◌>>=◌}

pub record Makes {ℓ} {A : Type ℓ} (P : Call → Type 0) (m : M A) : Type ℓ where
  pub at : (h : List Call) → All P h → All P (m h).1

module _ {ℓ} {A : Type ℓ} {P : Call → Type 0} where
  pub Makes-lift : (r : Result A) → Makes P (lift r)
  Makes-lift r = record { at = λ h k. k }

module _ {ℓ κ} {A : Type ℓ} {B : Type κ} {P : Call → Type 0} where
  next-All :
      (r : Result A × List Call) (f : A → M B)
      → ((a : A) → Makes P (f a))
      → All P r.1
      → All P (next f r).1
  next-All (ok a, h) f kf k = (kf a).at h k
  next-All (err e, h) f kf k = k

  pub Makes-bind :
      (m : M A) (f : A → M B) → Makes P m → ((a : A) → Makes P (f a)) → Makes P (m >>= f)
  Makes-bind m f km kf = record { at = λ h k. next-All (m h) f kf (km.at h k) }
