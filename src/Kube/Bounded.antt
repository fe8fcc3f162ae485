-- ===== src/Kube/Bounded.antt =====
-- How many calls a handler makes, whatever the server answers.
use opensearch_dataprepper_k.Common.{ℕ, ◌+◌, ◌≤◌, List, length, arith}
use opensearch_dataprepper_k.Kube.Result.{Result, ok, err}
use opensearch_dataprepper_k.Kube.Client.{Call, M, lift, next, ◌>>=◌}

pub record Bounded {ℓ} {A : Type ℓ} (n : ℕ) (m : M A) : Type ℓ where
  pub at : (h : List Call) → length (m h).1 ≤ n + length h

module _ {ℓ} {A : Type ℓ} where
  pub Bounded-lift : (r : Result A) → Bounded 0 (lift r)
  Bounded-lift r = record { at = λ h. omega arith }

module _ {ℓ κ} {A : Type ℓ} {B : Type κ} where
  next-Bounded :
      (n k : ℕ) (h : List Call) (r : Result A × List Call) (f : A → M B)
      → length r.1 ≤ n + length h
      → ((a : A) → Bounded k (f a))
      → length (next f r).1 ≤ n + k + length h
  next-Bounded n k h (ok a, h') f le rest = omega (arith, le, (rest a).at h')
  next-Bounded n k h (err e, h') f le rest = omega (arith, le)

  pub Bounded-bind :
      (n k : ℕ) (m : M A) (f : A → M B)
      → Bounded n m
      → ((a : A) → Bounded k (f a))
      → Bounded (n + k) (m >>= f)
  Bounded-bind n k m f first rest = record {
    at = λ h. next-Bounded n k h (m h) f (first.at h) rest;
  }
