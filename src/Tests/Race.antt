-- ===== src/Tests/Race.antt =====
-- The theorems on two pipelines of one cluster at concrete inputs.
use mathlib.Core.List.{Perm, Permᴰ}
use opensearch_dataprepper_k.Common.{◌≡◌, ◌≢◌, eq_iff, refl, List, [], ◌∷◌, some}
use opensearch_dataprepper_k.Go.Strings.{trim_space}
use opensearch_dataprepper_k.Go.Json.{unmarshal_keys, has_key}
use opensearch_dataprepper_k.Kube.Result.{Result, Error, ok, err}
use opensearch_dataprepper_k.Kube.Client.{Server, Call, list, pipelines}
use opensearch_dataprepper_k.Api.{Pipeline}
use opensearch_dataprepper_k.PipelineController.Rebuild.{rebuild_cluster_config}
use opensearch_dataprepper_k.Webhooks.PipelineValidator.{validate, validate_pipeline_definition}
use opensearch_dataprepper_k.Webhooks.Race.{admitted_race_blocks}
use opensearch_dataprepper_k.Tests.Fixtures.{first, rival, server}
use opensearch_dataprepper_k.Tests.Machinery.{machinery}

abbrev listing : List Call → Result (List Pipeline)
listing [] = ok []
listing (_ ∷ _) = ok (rival ∷ first ∷ [])

-- The first listing of all is empty, and both pipelines are in every later one.
abbrev racing : Server
racing = record (server [] []) { pipeline_list = λ h ns. listing h }

first_valid : validate_pipeline_definition first ≡ ok tt
unfolding validate_pipeline_definition trim_space unmarshal_keys has_key
first_valid = refl

rival_valid : validate_pipeline_definition rival ≡ ok tt
unfolding validate_pipeline_definition trim_space unmarshal_keys has_key
rival_valid = refl

raced : Perm (rival ∷ first ∷ []) (first ∷ rival ∷ [])
raced = ∣ Permᴰ.swap refl refl ∣₁

abbrev later : List Call
later = list pipelines "team" ∷ []

not_first : first.metadata.name ≢ "third"
not_first e = cc ((eq_iff "first" "third").1 e)

not_rival : rival.metadata.name ≢ "third"
not_rival e = cc ((eq_iff "rival" "third").1 e)

admitted_race_blocks_example :
    (validate (some racing) first [] ≡ (ok tt, later))
    × (validate (some racing) rival [] ≡ (ok tt, later))
    × (e : Error) × (rebuild_cluster_config racing machinery "team" "logs" "third" later
        ≡ (err e, list pipelines "team" ∷ later))
admitted_race_blocks_example =
    admitted_race_blocks racing machinery first rival [] (rival ∷ first ∷ []) [] [] [] later "third"
      first_valid rival_valid refl refl refl tt refl refl (not_first, refl) (not_rival, refl) raced
      refl
