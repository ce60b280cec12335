-- ===== src/Api/RateLimit/Window.antt =====
-- Whom the rate limiter admits, and what it remembers.
use post_rag_drift_evaluator.Prelude.{
  ℕ, ◌≤◌, List, [], ◌∷◌, ◌++◌, arith, inl, inr, Bool-cases, leb, length, length-append,
  length-keep-le, All,
}
use post_rag_drift_evaluator.Float.{Float}
use post_rag_drift_evaluator.Dict.{Dict, get_or, values, All-put, All-get_or}
use post_rag_drift_evaluator.Api.RateLimit.{Request, get_client_id, recent, rate_limit}

module _ {F : Type 0} ⦃fl : Float F⦄ where
  -- No client has more entries than the limit.
  pub record IsLimited (max_requests : ℕ) (requests : Dict (List F)) : Type 0 where
    pub entries : All (λ es. length es ≤ max_requests) (values requests)

  -- The entries of a client.
  abbrev pub entries_of : Request → Dict (List F) → List F
  entries_of request requests = get_or (get_client_id request) [] requests

  length-recent : (now : F) (es : List F) → length (recent now es) ≤ length es
  unfolding recent
  length-recent now es = length-keep-le (λ t. fl.lt (fl.sub now (fl.decimal 60 0)) t) es

  -- A request, admitted or refused, keeps every client within the limit.
  pub rate_limit-IsLimited :
      (max_requests : ℕ) (now : F) (request : Request) (requests : Dict (List F))
      → IsLimited max_requests requests
      → IsLimited max_requests (rate_limit max_requests now request requests).0
  unfolding rate_limit values
  rate_limit-IsLimited max_requests now request requests h =
      let id = get_client_id request in
      let old = get_or id [] requests in
      let fits : length old ≤ max_requests =
        All-get_or (λ es. length es ≤ max_requests) id [] requests (omega arith) h.entries in
      let less = length-recent now old in
      elim (Bool-cases (leb max_requests (length (recent now old)))) [
        | inl e ↦ rw e (record {
          entries =
              All-put (λ es. length es ≤ max_requests) id (recent now old) requests (omega arith)
                h.entries;
        })
        | inr e ↦ rw e (record {
          entries =
              All-put (λ es. length es ≤ max_requests) id (recent now old ++ now ∷ []) requests
                (ground (arith, length-append (recent now old) (now ∷ []))) h.entries;
        })
      ]
