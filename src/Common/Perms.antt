-- ===== src/Common/Perms.antt =====
-- Predicates over the members of a list do not see their order.
use mathlib.Core.Path.{subst}
use mathlib.Core.List.{List, Permᴰ}
use opensearch_dataprepper_k.Common.Lists.{All, Each}

module _ {ℓ κ} {A : Type ℓ} where
  pub All-perm : (P : A → Type κ) {xs ys : List A} → Permᴰ xs ys → All P xs → All P ys
  All-perm P Permᴰ.nil h = tt
  All-perm P (Permᴰ.cons e p) (x, h) = (subst P e x, All-perm P p h)
  All-perm P (Permᴰ.swap e f) (x, (y, h)) = (subst P f y, (subst P e x, h))
  All-perm P (Permᴰ.trans p q) h = All-perm P q (All-perm P p h)

  pub Each-perm :
      (R : A → A → Type κ)
      → ((a b : A) → R a b → R b a)
      → {xs ys : List A} → Permᴰ xs ys
      → Each R xs
      → Each R ys
  Each-perm R turn Permᴰ.nil h = tt
  Each-perm R turn (Permᴰ.cons {b = b} {l₂ = l₂} e p) (x, h) =
      (subst (λ a. All (R a) l₂) e (All-perm (R _) p x), Each-perm R turn p h)
  Each-perm R turn (Permᴰ.swap {a = a} {b = b} {a' = c} {b' = d} {l = l} e f) ((xy, x), (y, h)) = (
    (subst (λ z. R z d) f (subst (λ z. R b z) e (turn a b xy)), subst (λ z. All (R z) l) f y),
    (subst (λ z. All (R z) l) e x, h),
  )
  Each-perm R turn (Permᴰ.trans p q) h = Each-perm R turn q (Each-perm R turn p h)
