-- ===== src/Go/Json/Fuel.antt =====
-- The parser's fuel: more than twice the characters of the text changes nothing.
use opensearch_dataprepper_k.Common.{
  ℕ, zero, suc, ◌+◌, ◌*◌, ◌≡◌, ◌≤◌, ◌<◌, ◌∙◌, ap, sym, List, length, arith, Option-cases, inl, inr,
}
use opensearch_dataprepper_k.Go.Json
use opensearch_dataprepper_k.Go.Json.Remainders.{
  skip_space-shortens, expect-shortens, string_body-shortens,
}
use opensearch_dataprepper_k.Go.Json.Shortening.{shortens}

-- One more unit of fuel changes no result.
record IsStable (f : ℕ) : Type 0 where
  value : (s : List ℕ) → 2 * length s < f → Json.json_value f s ≡ Json.json_value (suc f) s
  elements : (s : List ℕ) → 1 + 2 * length s < f → Json.elements f s ≡ Json.elements (suc f) s
  members : (s : List ℕ) → 1 + 2 * length s < f → Json.members f s ≡ Json.members (suc f) s

module _ (f : ℕ) (ih : IsStable f) where
  value_step :
      (s : List ℕ)
      → 2 * length s < suc f
      → Json.json_value (suc f) s ≡ Json.json_value (suc (suc f)) s
  unfolding Json.json_value
  value_step s l = elim (Option-cases (Json.expect 34 s)) [
    | inr (u, quoted) ↦ ground arith
    | inl plain ↦ elim (Option-cases (Json.expect 123 s)) [
      | inr (u, opens) ↦
          let t = Json.skip_space u in
          let same =
            ih.members t (ground (arith, expect-shortens 123 s u opens, skip_space-shortens u)) in
          ground arith
      | inl flat ↦ elim (Option-cases (Json.expect 91 s)) [
        | inr (u, opens) ↦
            let t = Json.skip_space u in
            let same =
              ih.elements t (ground (arith, expect-shortens 91 s u opens, skip_space-shortens u)) in
            ground arith
        | inl bare ↦ ground arith
      ]
    ]
  ]

  elements_step :
      (s : List ℕ)
      → 1 + 2 * length s < suc f
      → Json.elements (suc f) s ≡ Json.elements (suc (suc f)) s
  unfolding Json.elements
  elements_step s l =
      let first = ih.value s (ground arith) in
      elim (Option-cases (Json.json_value f s)) [
        | inl failed ↦ ground arith
        | inr (rest, read) ↦
            let left = Json.skip_space rest in
            elim (Option-cases (Json.expect 44 left)) [
              | inl last ↦ ground arith
              | inr (more, comma) ↦
                  let same = ih.elements (Json.skip_space more) (
                    ground (
                      arith,
                      (shortens f).value s rest read,
                      skip_space-shortens rest,
                      expect-shortens 44 left more comma,
                      skip_space-shortens more,
                    )) in
                  ground arith
            ]
      ]

  members_step :
      (s : List ℕ)
      → 1 + 2 * length s < suc f
      → Json.members (suc f) s ≡ Json.members (suc (suc f)) s
  unfolding Json.members
  members_step s l = elim (Option-cases (Json.expect 34 s)) [
    | inl failed ↦ ground arith
    | inr (t, quoted) ↦ elim (Option-cases (Json.string_body Json.Mode.plain t)) [
      | inl failed ↦ ground arith
      | inr (key, read) ↦
          let trimmed = Json.skip_space key.1 in
          let in_key = string_body-shortens Json.Mode.plain t key read in
          elim (Option-cases (Json.expect 58 trimmed)) [
            | inl failed ↦ ground arith
            | inr (after, colon) ↦
                let start = Json.skip_space after in
                let behind : suc (length start) ≤ length s = ground (
                  arith,
                  expect-shortens 34 s t quoted,
                  in_key,
                  skip_space-shortens key.1,
                  expect-shortens 58 trimmed after colon,
                  skip_space-shortens after,
                ) in
                let first = ih.value start (ground (arith, behind)) in
                elim (Option-cases (Json.json_value f start)) [
                  | inl failed ↦ ground arith
                  | inr (rest, valued) ↦
                      let left = Json.skip_space rest in
                      elim (Option-cases (Json.expect 44 left)) [
                        | inl last ↦ ground arith
                        | inr (more, comma) ↦
                            let same = ih.members (Json.skip_space more) (
                              ground (
                                arith,
                                behind,
                                (shortens f).value start rest valued,
                                skip_space-shortens rest,
                                expect-shortens 44 left more comma,
                                skip_space-shortens more,
                              )) in
                            ground arith
                      ]
                ]
          ]
    ]
  ]

stable : (f : ℕ) → IsStable f
stable zero = record {
  value = λ s l. absurd (ground arith);
  elements = λ s l. absurd (ground arith);
  members = λ s l. absurd (ground arith);
}
stable (suc f) = record {
  value = value_step f (stable f);
  elements = elements_step f (stable f);
  members = members_step f (stable f);
}

-- Any more fuel than the parser takes for the members of an object gives the same result.
enough_fuel :
    (n : ℕ) (t : List ℕ)
    → Json.members (n + (2 + 2 * length t)) (Json.skip_space t)
      ≡ Json.members (2 + 2 * length t) (Json.skip_space t)
enough_fuel zero t =
    let none_more : 0 + (2 + 2 * length t) ≡ 2 + 2 * length t = omega arith in
    ap (λ f. Json.members f (Json.skip_space t)) none_more
enough_fuel (suc n) t =
    let f = n + (2 + 2 * length t) in
    let one_more : suc n + (2 + 2 * length t) ≡ suc (n + (2 + 2 * length t)) = omega arith in
    let again = (stable f).members (Json.skip_space t) (ground (arith, skip_space-shortens t)) in
    ap (λ g. Json.members g (Json.skip_space t)) one_more ∙ sym again ∙ enough_fuel n t
