-- ===== src/Kube/Result.antt =====
-- Go's `(value, error)` results.
use opensearch_dataprepper_k.Common.{String, ◌≡◌, refl, ◌⊎◌, inl, inr, String_set}

pub data Error : Type 0 where
  -- an error that the API server or a library function returned
  api : String → Error
  -- fmt.Errorf without %w, and with it
  errorf : String → Error
  wrap : String → Error → Error
  -- a Go run-time panic, which ends the handler
  panic : String → Error

pub data Result {ℓ} (A : Type ℓ) : Type ℓ where
  ok : A → Result A
  err : Error → Result A

pub Result-cases {ℓ} :
    {A : Type ℓ} (r : Result A) → ((a : A) × (r ≡ ok a)) ⊎ ((e : Error) × (r ≡ err e))
Result-cases (ok a) = inl (a, refl)
Result-cases (err e) = inr (e, refl)

Error-set : IsSet Error
Error-set = hlevel String_set

pub Result-set {ℓ} : {A : Type ℓ} → IsSet A → IsSet (Result A)
Result-set h = hlevel (h, Error-set)
