-- ===== src/Go/Json/Shortening.antt =====
-- What the parser leaves of a value, of elements and of members is no longer than their text.
use opensearch_dataprepper_k.Common.{
  ℕ, zero, suc, ◌≡◌, ◌≤◌, List, length, none, some, arith, Option-cases, inl, inr,
}
use opensearch_dataprepper_k.Go.Json
use opensearch_dataprepper_k.Go.Json.Remainders.{
  skip_space-shortens, expect-shortens, string_body-shortens, scalar-shortens,
}

pub record Shortens (f : ℕ) : Type 0 where
  pub value : (s t : List ℕ) → Json.json_value f s ≡ some t → length t ≤ length s
  pub elements : (s t : List ℕ) → Json.elements f s ≡ some t → length t ≤ length s
  pub members :
      (s : List ℕ) (found : List (List ℕ) × List ℕ)
      → Json.members f s ≡ some found
      → length found.1 ≤ length s

module _ (f : ℕ) (ih : Shortens f) where
  string-shortens :
      (s u t : List ℕ)
      → Json.expect 34 s ≡ some u
      → Json.json_value (suc f) s ≡ some t
      → length t ≤ length s
  unfolding Json.json_value
  string-shortens s u t quoted e = elim (Option-cases (Json.string_body Json.Mode.plain u)) [
    | inl failed ↦ absurd (ground arith)
    | inr (found, read) ↦
        ground
          (arith, expect-shortens 34 s u quoted, string_body-shortens Json.Mode.plain u found read)
  ]

  object-shortens :
      (s u t : List ℕ)
      → Json.expect 34 s ≡ none
      → Json.expect 123 s ≡ some u
      → Json.json_value (suc f) s ≡ some t
      → length t ≤ length s
  unfolding Json.json_value
  object-shortens s u t plain opens e =
      let trimmed = Json.skip_space u in
      elim (Option-cases (Json.expect 125 trimmed)) [
        | inr (rest, empty) ↦ ground (
          arith,
          expect-shortens 123 s u opens,
          skip_space-shortens u,
          expect-shortens 125 trimmed rest empty,
        )
        | inl more ↦ elim (Option-cases (Json.members f trimmed)) [
          | inl failed ↦ absurd (ground arith)
          | inr (found, read) ↦ ground (
            arith,
            expect-shortens 123 s u opens,
            skip_space-shortens u,
            ih.members trimmed found read,
          )
        ]
      ]

  array-shortens :
      (s u t : List ℕ)
      → Json.expect 34 s ≡ none
      → Json.expect 123 s ≡ none
      → Json.expect 91 s ≡ some u
      → Json.json_value (suc f) s ≡ some t
      → length t ≤ length s
  unfolding Json.json_value
  array-shortens s u t plain flat opens e =
      let trimmed = Json.skip_space u in
      elim (Option-cases (Json.expect 93 trimmed)) [
        | inr (rest, empty) ↦ ground (
          arith,
          expect-shortens 91 s u opens,
          skip_space-shortens u,
          expect-shortens 93 trimmed rest empty,
        )
        | inl more ↦
            ground
              (arith, expect-shortens 91 s u opens, skip_space-shortens u, ih.elements trimmed t)
      ]

  value-shortens : (s t : List ℕ) → Json.json_value (suc f) s ≡ some t → length t ≤ length s
  unfolding Json.json_value
  value-shortens s t e = elim (Option-cases (Json.expect 34 s)) [
    | inr (u, quoted) ↦ string-shortens s u t quoted e
    | inl plain ↦ elim (Option-cases (Json.expect 123 s)) [
      | inr (u, opens) ↦ object-shortens s u t plain opens e
      | inl flat ↦ elim (Option-cases (Json.expect 91 s)) [
        | inr (u, opens) ↦ array-shortens s u t plain flat opens e
        | inl bare ↦ ground (arith, scalar-shortens s t)
      ]
    ]
  ]

  list-shortens : (s t : List ℕ) → Json.elements (suc f) s ≡ some t → length t ≤ length s
  unfolding Json.elements
  list-shortens s t e = elim (Option-cases (Json.json_value f s)) [
    | inl failed ↦ absurd (ground arith)
    | inr (rest, read) ↦
        let trimmed = Json.skip_space rest in
        elim (Option-cases (Json.expect 44 trimmed)) [
          | inr (more, comma) ↦
              let next = Json.skip_space more in
              ground (
                arith,
                ih.value s rest read,
                skip_space-shortens rest,
                expect-shortens 44 trimmed more comma,
                skip_space-shortens more,
                ih.elements next t,
              )
          | inl last ↦
              ground (
                arith,
                ih.value s rest read,
                skip_space-shortens rest,
                expect-shortens 93 trimmed t,
              )
        ]
  ]

  members-shortens :
      (s : List ℕ) (found : List (List ℕ) × List ℕ)
      → Json.members (suc f) s ≡ some found
      → length found.1 ≤ length s
  unfolding Json.members
  members-shortens s found e = elim (Option-cases (Json.expect 34 s)) [
    | inl failed ↦ absurd (ground arith)
    | inr (t, quoted) ↦ elim (Option-cases (Json.string_body Json.Mode.plain t)) [
      | inl failed ↦ absurd (ground arith)
      | inr (key, read) ↦
          let trimmed = Json.skip_space key.1 in
          let in_key = string_body-shortens Json.Mode.plain t key read in
          elim (Option-cases (Json.expect 58 trimmed)) [
            | inl failed ↦ absurd (ground arith)
            | inr (after, colon) ↦
                let start = Json.skip_space after in
                let behind : suc (length start) ≤ length s = ground (
                  arith,
                  expect-shortens 34 s t quoted,
                  in_key,
                  skip_space-shortens key.1,
                  expect-shortens 58 trimmed after colon,
                  skip_space-shortens after,
                ) in
                elim (Option-cases (Json.json_value f start)) [
                  | inl failed ↦ absurd (ground arith)
                  | inr (rest, valued) ↦
                      let left = Json.skip_space rest in
                      let bound = ih.value start rest valued in
                      elim (Option-cases (Json.expect 44 left)) [
                        | inr (more, comma) ↦
                            let next = Json.skip_space more in
                            elim (Option-cases (Json.members f next)) [
                              | inl failed ↦ absurd (ground arith)
                              | inr (found', later) ↦ ground (
                                arith,
                                behind,
                                bound,
                                skip_space-shortens rest,
                                expect-shortens 44 left more comma,
                                skip_space-shortens more,
                                ih.members next found' later,
                              )
                            ]
                        | inl last ↦ elim (Option-cases (Json.expect 125 left)) [
                          | inl failed ↦ absurd (ground arith)
                          | inr (end, closed) ↦ ground (
                            arith,
                            behind,
                            bound,
                            skip_space-shortens rest,
                            expect-shortens 125 left end closed,
                          )
                        ]
                      ]
                ]
          ]
    ]
  ]

pub shortens : (f : ℕ) → Shortens f
unfolding Json.json_value Json.elements Json.members
shortens zero = record { value = λ s t e. cc; elements = λ s t e. cc; members = λ s found e. cc }
shortens (suc f) = record {
  value = value-shortens f (shortens f);
  elements = list-shortens f (shortens f);
  members = members-shortens f (shortens f);
}
