-- ===== src/Inference/Client/Tests.antt =====
-- The theorem of Inference.Client on a server that lists two models.
use digital_ghost.Prelude.{◌≡◌, ◌↔◌, List, [], ◌∷◌, some}
use digital_ghost.Prelude.Result.{ok}
use digital_ghost.Inference.Client.{ModelEntry, TagsAnswer, response, verify_model}
use digital_ghost.Inference.Client.Laws.{IsVerified, verify_model_iff}

abbrev two_models : List ModelEntry
two_models =
    record { name = 1 ∷ []; digest = 5 ∷ [] } ∷ record { name = 2 ∷ []; digest = 6 ∷ [] } ∷ []

abbrev answer : TagsAnswer
answer = response 200 (some two_models)

verify_model_iff_example :
    (verify_model (2 ∷ []) (6 ∷ []) answer ≡ ok (6 ∷ []))
    ↔ IsVerified (2 ∷ []) (6 ∷ []) (6 ∷ []) answer
verify_model_iff_example = verify_model_iff (2 ∷ []) (6 ∷ []) (6 ∷ []) answer
