-- ===== src/Tests/Auth.antt =====
-- The key check at concrete requests.
use post_rag_drift_evaluator.Prelude.{◌≡◌, refl, true, none, some, [], ◌∷◌}
use post_rag_drift_evaluator.Result.{ok, err, http_unauthorized}
use post_rag_drift_evaluator.Api.Auth.{KeyConfig, AuthRequest, verify_api_key}
use post_rag_drift_evaluator.Api.Auth.Verdicts.{IsVerdict, verify_api_key-IsVerdict}

abbrev two_keys : KeyConfig
two_keys = record { api_key_required = true; api_keys = "k1" ∷ "k2" ∷ [] }

abbrev bearer_request : AuthRequest
bearer_request = record { path = "/evaluate"; api_key = some ""; authorization = some "Bearer k2" }

bearer_passes : verify_api_key two_keys bearer_request ≡ ok (some "k2")
unfolding verify_api_key
bearer_passes = refl

-- A wrong key in the first header is not made up for by the second.
first_header_wins :
    verify_api_key two_keys (record bearer_request { api_key = some "k3" }) ≡ err http_unauthorized
unfolding verify_api_key
first_header_wins = refl

health_passes : verify_api_key two_keys (record bearer_request { path = "/healthz" }) ≡ ok none
unfolding verify_api_key
health_passes = refl

verify_api_key-IsVerdict_example :
    IsVerdict two_keys bearer_request (verify_api_key two_keys bearer_request)
verify_api_key-IsVerdict_example = verify_api_key-IsVerdict two_keys bearer_request
