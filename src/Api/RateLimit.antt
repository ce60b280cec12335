-- ===== src/Api/RateLimit.antt =====
-- api/middleware/rate_limit.py. The table of requests is the state; the clock's reading and the
-- configured limit are arguments. The handler runs under a lock, so that it is one step.
pub mod Window
pub mod History
use Prim.Native.String
use post_rag_drift_evaluator.Prelude.{
  ℕ, String, Bool, Option, none, some, List, [], ◌∷◌, ◌++◌, concat, leb, keep, length,
  if◌then◌else◌,
}
use post_rag_drift_evaluator.Result.{Error, Result, ok, err, index_error, http_too_many_requests}
use post_rag_drift_evaluator.Float.{Float}
use post_rag_drift_evaluator.Dict.{Dict, get, get_or, put}

-- What `_get_client_id` reads of a request.
pub record Request : Type 0 where
  pub api_key : Option String
  pub client_host : Option String

abbrev pub ip_of : Option String → String
ip_of none = "ip:unknown"
ip_of (some host) = concat ("ip:" ∷ host ∷ [])

-- By the key if it is there and not empty, else by the address.
unfoldable pub client_of : Option String → Option String → String
client_of none host = ip_of host
client_of (some String.[]) host = ip_of host
client_of (some (String.◌∷◌ c s)) host = concat ("apikey:" ∷ String.◌∷◌ c s ∷ [])

unfoldable pub get_client_id : Request → String
unfolding client_of
get_client_id r = client_of r.api_key r.client_host

module _ {F : Type 0} ⦃fl : Float F⦄ where
  open fl use {decimal, sub, lt}

  abbrev pub reset_rate_limits : Dict (List F)
  reset_rate_limits = []

  -- The entries inside the window that ends now.
  unfoldable pub recent : F → List F → List F
  recent now entries = keep (λ t. lt (sub now (decimal 60 0)) t) entries

  -- The refusal reads the oldest entry for its `Retry-After` header.
  unfoldable pub refusal : List F → Error
  refusal [] = index_error
  refusal (t ∷ entries) = http_too_many_requests

  unfoldable pub rate_limit : ℕ → F → Request → Dict (List F) → Dict (List F) × Result String
  unfolding get_client_id recent refusal put get
  rate_limit max_requests now request requests =
      let client_id = get_client_id request in
      let entries = recent now (get_or client_id [] requests) in
      if leb max_requests (length entries)
      then (put client_id entries requests, err (refusal entries))
      else (put client_id (entries ++ now ∷ []) requests, ok client_id)
