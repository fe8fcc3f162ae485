-- ===== src/Go/Suffix.antt =====
-- Cutting a suffix off a text that ends in it.
use Prim.Native.Char.{Char}
use Prim.Native.String.{[], ◌∷◌, count}
use text.Mathlib.TextLemmas.{nil-append, cons-append, length-cons, length-append}
use opensearch_dataprepper_k.Common.{
  String, ◌≡◌, refl, ◌≢◌, true, some, eq_refl, eq-false_of_ne, ◌<>◌, arith, ap,
}
use opensearch_dataprepper_k.Go.Strings.{cut_suffix, has_suffix, trim_suffix}

cut_suffix_self : (t : String) → cut_suffix t t ≡ some []
unfolding cut_suffix
cut_suffix_self [] = refl
cut_suffix_self (c ∷ t) = ground (arith, eq_refl (c ∷ t))

ne-cons-append : (c : Char) (s t : String) → t ≢ c ∷ (s <> t)
ne-cons-append c s t e =
    absurd (omega (arith, ap count e, length-cons c (s <> t), length-append s t))

cut_suffix-append : (s t : String) → cut_suffix (s <> t) t ≡ some s
unfolding cut_suffix
cut_suffix-append [] t = rw nil-append (cut_suffix_self t)
cut_suffix-append (c ∷ s) t = rw cons-append (
    rw (eq-false_of_ne t (c ∷ (s <> t)) (ne-cons-append c s t), cut_suffix)
      (rw (cut_suffix-append s t)))

pub has_suffix-append : (s t : String) → has_suffix (s <> t) t ≡ true
unfolding has_suffix
has_suffix-append s t = rw (cut_suffix-append s t)

pub trim_suffix-append : (s t : String) → trim_suffix (s <> t) t ≡ s
unfolding trim_suffix
trim_suffix-append s t = rw (cut_suffix-append s t, trim_suffix)
