-- ===== src/Kube/Present.antt =====
-- The objects that are there after a list of calls, and the handlers that leave them there.
use opensearch_dataprepper_k.Common.{◌≡◌, List, [], ◌∷◌, Bool, true, not, ◌&&◌, ◌||◌, ap}
use opensearch_dataprepper_k.Kube.Result.{Result, ok, err}
use opensearch_dataprepper_k.Kube.Succeeds.{bind-succeeds}
use opensearch_dataprepper_k.Kube.Client.{
  Call, get, list, write, create, update, delete, update_status, Object, M, next, ◌>>=◌,
}

-- Whether the object of which `is_it` holds is there, from whether it was there at first.
abbrev pub present : (Object → Bool) → Bool → List Call → Bool
present is_it at_first [] = at_first
present is_it at_first (get _ _ _ ∷ h) = present is_it at_first h
present is_it at_first (list _ _ ∷ h) = present is_it at_first h
present is_it at_first (write create x ∷ h) = is_it x || present is_it at_first h
present is_it at_first (write update x ∷ h) = present is_it at_first h
present is_it at_first (write update_status x ∷ h) = present is_it at_first h
present is_it at_first (write delete x ∷ h) = not (is_it x) && present is_it at_first h

module _ (is_it : Object → Bool) (at_first : Bool) where
  -- The handler does not take it away.
  pub record Keeps {ℓ} {A : Type ℓ} (m : M A) : Type ℓ where
    pub at :
        (h : List Call) → present is_it at_first h ≡ true → present is_it at_first (m h).1 ≡ true

  -- Where the handler succeeds, it is there.
  pub record Leaves {ℓ} {A : Type ℓ} (m : M A) : Type ℓ where
    pub at : (h h' : List Call) (a : A) → m h ≡ (ok a, h') → present is_it at_first h' ≡ true

  module _ {ℓ κ} {A : Type ℓ} {B : Type κ} where
    next-present :
        (r : Result A × List Call) (f : A → M B)
        → ((a : A) → Keeps (f a))
        → present is_it at_first r.1 ≡ true
        → present is_it at_first (next f r).1 ≡ true
    next-present (ok a, h) f kf k = (kf a).at h k
    next-present (err e, h) f kf k = k

    pub Keeps-bind : (m : M A) (f : A → M B) → Keeps m → ((a : A) → Keeps (f a)) → Keeps (m >>= f)
    Keeps-bind m f km kf = record { at = λ h k. next-present (m h) f kf (km.at h k) }

    pub Leaves-then :
        (m : M A) (f : A → M B) → Leaves m → ((a : A) → Keeps (f a)) → Leaves (m >>= f)
    Leaves-then m f lm kf = record {
      at = λ h h' b e.
          let (a, h1, first, rest) = bind-succeeds m f h h' b e in
          rw (← ap (λ r. r.1) rest) ((kf a).at h1 (lm.at h h1 a first));
    }

    pub then-Leaves : (m : M A) (f : A → M B) → ((a : A) → Leaves (f a)) → Leaves (m >>= f)
    then-Leaves m f lf = record {
      at = λ h h' b e.
          let (a, h1, first, rest) = bind-succeeds m f h h' b e in (lf a).at h1 h' b rest;
    }
