-- ===== src/Go/Json/Remainders.antt =====
-- What the parser leaves of a text is no longer than the text.
use opensearch_dataprepper_k.Common.{
  ℕ, suc, ◌≡◌, refl, ◌≤◌, List, [], ◌∷◌, length, none, some, arith, Option-cases, Bool-cases, inl,
  inr,
}
use opensearch_dataprepper_k.Go.Json

pub skip_space-shortens : (s : List ℕ) → length (Json.skip_space s) ≤ length s
unfolding Json.skip_space
skip_space-shortens [] = ground arith
skip_space-shortens (c ∷ s) = ground (arith, skip_space-shortens s)

pub expect-shortens : (c : ℕ) (s t : List ℕ) → Json.expect c s ≡ some t → length s ≡ suc (length t)
unfolding Json.expect
expect-shortens c [] t e = cc
expect-shortens c (d ∷ s) t e = ground arith

expect_all-shortens : (cs s t : List ℕ) → Json.expect_all cs s ≡ some t → length t ≤ length s
unfolding Json.expect_all
expect_all-shortens [] s t e = ground arith
expect_all-shortens (c ∷ cs) s t e = elim (Option-cases (Json.expect c s)) [
  | inl failed ↦ absurd (ground arith)
  | inr (u, found) ↦
      let rest = expect_all-shortens cs u t (ground arith) in
      ground (arith, expect-shortens c s u found)
]

put_rest : (out : List ℕ) (found : List ℕ × List ℕ) → (Json.put out found).1 ≡ found.1
unfolding Json.put
put_rest [] found = refl
put_rest (c ∷ out) (a, b) = refl

pub string_body-shortens :
    (m : Json.Mode) (s : List ℕ) (found : List ℕ × List ℕ)
    → Json.string_body m s ≡ some found
    → length found.1 ≤ length s
unfolding Json.string_body
string_body-shortens m [] found e = cc
string_body-shortens m (c ∷ s) found e = elim (Bool-cases (Json.is_closing m c)) [
  | inl closing ↦ ground arith
  | inr inside ↦ elim (Option-cases (Json.step m c)) [
    | inl failed ↦ absurd (ground arith)
    | inr ((m', out), stepped) ↦ elim (Option-cases (Json.string_body m' s)) [
      | inl failed ↦ absurd (ground arith)
      | inr (rest, later) ↦ ground (arith, string_body-shortens m' s rest later, put_rest out rest)
    ]
  ]
]

digits-shortens : (s : List ℕ) → length (Json.digits s) ≤ length s
unfolding Json.digits
digits-shortens [] = ground arith
digits-shortens (c ∷ s) = ground (arith, digits-shortens s)

some_digits-shortens : (s t : List ℕ) → Json.some_digits s ≡ some t → length t ≤ length s
unfolding Json.some_digits
some_digits-shortens [] t e = cc
some_digits-shortens (c ∷ s) t e = ground (arith, digits-shortens s)

integer_part-shortens : (s t : List ℕ) → Json.integer_part s ≡ some t → length t ≤ length s
unfolding Json.integer_part
integer_part-shortens [] t e = cc
integer_part-shortens (c ∷ s) t e = ground (arith, some_digits-shortens (c ∷ s) t)

fraction-shortens : (s t : List ℕ) → Json.fraction s ≡ some t → length t ≤ length s
unfolding Json.fraction
fraction-shortens s t e = elim (Option-cases (Json.expect 46 s)) [
  | inl absent ↦ ground arith
  | inr (u, found) ↦ ground (arith, expect-shortens 46 s u found, some_digits-shortens u t)
]

sign-shortens : (s : List ℕ) → length (Json.sign s) ≤ length s
unfolding Json.sign
sign-shortens [] = ground arith
sign-shortens (c ∷ s) = ground arith

exponent-shortens : (s t : List ℕ) → Json.exponent s ≡ some t → length t ≤ length s
unfolding Json.exponent
exponent-shortens [] t e = ground arith
exponent-shortens (c ∷ s) t e =
    ground (arith, sign-shortens s, some_digits-shortens (Json.sign s) t)

-- The digits behind the sign.
unsigned : List ℕ → List ℕ
unfolding Json.expect
unsigned s = elim (Json.expect 45 s) as (λ _. List ℕ) [ none ↦ s | some rest ↦ rest ]

unsigned-shortens : (s : List ℕ) → length (unsigned s) ≤ length s
unfolding unsigned
unsigned-shortens s = elim (Option-cases (Json.expect 45 s)) [
  | inl absent ↦ ground arith
  | inr (u, found) ↦ ground (arith, expect-shortens 45 s u found)
]

number-shortens : (s t : List ℕ) → Json.number s ≡ some t → length t ≤ length s
unfolding Json.number unsigned
number-shortens s t e = elim (Option-cases (Json.integer_part (unsigned s))) [
  | inl failed ↦ absurd (ground arith)
  | inr (u, found) ↦ elim (Option-cases (Json.fraction u)) [
    | inl failed ↦ absurd (ground arith)
    | inr (v, more) ↦ ground (
      arith,
      unsigned-shortens s,
      integer_part-shortens (unsigned s) u found,
      fraction-shortens u v more,
      exponent-shortens v t,
    )
  ]
]

pub scalar-shortens : (s t : List ℕ) → Json.scalar s ≡ some t → length t ≤ length s
unfolding Json.scalar
scalar-shortens s t e = ground (
  arith,
  expect_all-shortens (Json.codes "true") s t,
  expect_all-shortens (Json.codes "false") s t,
  expect_all-shortens (Json.codes "null") s t,
  number-shortens s t,
)
