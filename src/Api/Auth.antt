-- ===== src/Api/Auth.antt =====
-- api/middleware/auth.py. The configuration is an argument; a request is its path and the two headers
-- that are read.
pub mod Verdicts
use Prim.Native.String.{slice, len}
use text.Mathlib.Text.{starts_with}
use post_rag_drift_evaluator.Prelude.{
  String, Bool, true, false, not, ◌||◌, Option, none, some, List, [], ◌∷◌, str_eq, if◌then◌else◌,
}
use post_rag_drift_evaluator.Result.{Result, ok, err, http_unauthorized}

-- The fields API_KEY_REQUIRED and API_KEYS of evaluator/config.py.
pub record KeyConfig : Type 0 where
  pub api_key_required : Bool
  pub api_keys : List String

-- The headers X-API-Key and Authorization.
pub record AuthRequest : Type 0 where
  pub path : String
  pub api_key : Option String
  pub authorization : Option String

abbrev pub is_public_path : String → Bool
is_public_path path = (str_eq path "/healthz" || str_eq path "/readyz") || str_eq path "/metrics"

abbrev pub text_of : Option String → String
text_of none = ""
text_of (some s) = s

abbrev pub scheme : String
scheme = "Bearer "

-- auth_header[len("Bearer "):]
abbrev pub token_of : String → String
token_of auth = slice auth (len scheme) (len auth)

abbrev pub presented : Option String → String → Option String
presented key auth =
    if str_eq (text_of key) ""
    then (if starts_with auth scheme then some (token_of auth) else key)
    else key

abbrev pub contains : List String → String → Bool
contains [] s = false
contains (x ∷ xs) s = str_eq x s || contains xs s

abbrev pub accept : KeyConfig → String → Result (Option String)
accept c key =
    if str_eq key "" || not (contains c.api_keys key) then err http_unauthorized else ok (some key)

unfoldable pub verify_api_key : KeyConfig → AuthRequest → Result (Option String)
verify_api_key c r =
    if not c.api_key_required || is_public_path r.path
    then ok none
    else accept c (text_of (presented r.api_key (text_of r.authorization)))
