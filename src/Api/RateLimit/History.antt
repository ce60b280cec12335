-- ===== src/Api/RateLimit/History.antt =====
-- The rate limiter beside the full history of admissions (api/middleware/rate_limit.py).
use post_rag_drift_evaluator.Prelude.{
  ℕ, zero, suc, eq_refl, append-nil, String, ◌≡◌, refl, sym, ap, ◌∙◌, true, false, ◌&&◌, not, List,
  [], ◌∷◌, ◌++◌, arith, inl, inr, Bool-cases, leb, ltb, ◌==◌, length, str_eq, eq_iff, if◌then◌else◌,
  some, none, Option, subst,
}
use post_rag_drift_evaluator.Result.{Result, ok, err, index_error, http_too_many_requests}
use post_rag_drift_evaluator.Float.{Float, IsOrdered}
use post_rag_drift_evaluator.Dict.{Dict, get, get_or, put, get-put_self, get-put_ne}
use post_rag_drift_evaluator.Api.RateLimit.{
  Request, get_client_id, recent, refusal, rate_limit, reset_rate_limits,
}

module _ {F : Type 0} ⦃fl : Float F⦄ where
  open fl use {lt, le, sub, decimal}

  -- When a client's requests were admitted, of the last minute before `now`.
  abbrev pub in_last_minute : String → F → List (String × F) → List F
  in_last_minute id now [] = []
  in_last_minute id now ((j, t) ∷ log) =
      let rest = in_last_minute id now log in
      if str_eq j id && lt (sub now (decimal 60 0)) t then t ∷ rest else rest

  -- A limiter that forgets nothing: a request passes while fewer requests of its client than the limit
  -- were admitted in the last minute. A limit of 0 makes the refusal itself fail.
  abbrev pub answer : ℕ → String → List F → Result String
  answer n id ts =
      if ltb (length ts) n
      then ok id
      else if length ts == 0
      then err index_error
      else err http_too_many_requests

  abbrev pub noted : ℕ → F → String → List F → List (String × F) → List (String × F)
  noted max_requests now id ts log =
      if ltb (length ts) max_requests then log ++ (id, now) ∷ [] else log

  -- Requests, each with the clock's reading, and the answer to each.
  unfoldable pub admit_all : ℕ → List (F × Request) → List (String × F) → List (Result String)
  unfolding get_client_id
  admit_all n [] log = []
  admit_all n ((now, request) ∷ rs) log =
      let id = get_client_id request in
      let ts = in_last_minute id now log in answer n id ts ∷ admit_all n rs (noted n now id ts log)

  unfoldable pub rate_limit_all : ℕ → List (F × Request) → Dict (List F) → List (Result String)
  unfolding rate_limit
  rate_limit_all n [] requests = []
  rate_limit_all n ((now, request) ∷ rs) requests =
      let (after, result) = rate_limit n now request requests in result ∷ rate_limit_all n rs after

  -- The clock does not go back.
  abbrev pub IsClock : F → List (F × Request) → Type 0
  IsClock before [] = Unit
  IsClock before ((now, request) ∷ rs) = (le before now ≡ true) × IsClock now rs

module _ {F : Type 0} ⦃fl : Float F⦄ (laws : IsOrdered F) where
  open fl use {lt, le, sub, decimal}

  -- A later minute begins later.
  later_minute :
      (now now' t : F)
      → le now now' ≡ true
      → lt (sub now' (decimal 60 0)) t ≡ true
      → lt (sub now (decimal 60 0)) t ≡ true
  later_minute now now' t h k =
      let earlier = laws.sub_mono now now' 60 0 h in
      let below = laws.le_of_lt (sub now' (decimal 60 0)) t k in
      let nums = laws.num_of_le (sub now (decimal 60 0)) (sub now' (decimal 60 0)) earlier in
      let num = (laws.num_of_le (sub now' (decimal 60 0)) t below).1 in
      ground (
        arith,
        k,
        laws.lt-eq-not-le (sub now' (decimal 60 0)) t nums.1 num,
        laws.lt-eq-not-le (sub now (decimal 60 0)) t nums.0 num,
        laws.le_trans t (sub now (decimal 60 0)) (sub now' (decimal 60 0)),
        earlier,
      )

  recent-recent :
      (now now' : F) (ts : List F)
      → le now now' ≡ true
      → recent now' (recent now ts) ≡ recent now' ts
  unfolding recent
  recent-recent now now' [] h = refl
  recent-recent now now' (t ∷ ts) h =
      ground (arith, recent-recent now now' ts h, later_minute now now' t h)

  recent-append :
      (now : F) (xs ys : List F) → recent now (xs ++ ys) ≡ recent now xs ++ recent now ys
  unfolding recent
  recent-append now [] ys = refl
  recent-append now (x ∷ xs) ys = ground (arith, recent-append now xs ys)

  in_last_minute-append :
      (id : String) (now : F) (xs ys : List (String × F))
      → in_last_minute id now (xs ++ ys) ≡ in_last_minute id now xs ++ in_last_minute id now ys
  in_last_minute-append id now [] ys = refl
  in_last_minute-append id now ((j, t) ∷ xs) ys = ground (arith, in_last_minute-append id now xs ys)

  -- The table agrees with the history for every client, from a time on.
  abbrev Agrees : F → Dict (List F) → List (String × F) → Type 0
  Agrees before requests log =
      (id : String) (now : F)
      → le before now ≡ true
      → recent now (get_or id [] requests) ≡ in_last_minute id now log

  -- The table after a request, whichever way it was answered.
  abbrev entries_after : ℕ → F → List F → List F
  entries_after n now ts = if ltb (length ts) n then ts ++ now ∷ [] else ts

  by_size :
      (n : ℕ) (id : String) (now : F) (ts : List F) (requests : Dict (List F))
      → ◌≡◌ {A = Dict (List F) × Result String}
          (if leb n (length ts)
            then (put id ts requests, err (refusal ts))
            else (put id (ts ++ now ∷ []) requests, ok id))
          (put id (entries_after n now ts) requests, answer n id ts)
  unfolding refusal
  by_size zero id now [] requests = refl
  by_size (suc n) id now [] requests =
      let passes : leb (suc n) 0 ≡ false = ground arith in
      let fits : ltb 0 (suc n) ≡ true = ground arith in rw (passes, fits) refl
  by_size n id now (t ∷ ts) requests =
      let flip : ltb (length (t ∷ ts)) n ≡ not (leb n (length (t ∷ ts))) = ground arith in
      let filled : length (t ∷ ts) == 0 ≡ false = ground arith in
      elim (Bool-cases (leb n (length (t ∷ ts)))) [
        | inl e ↦ rw (flip, e, filled) refl
        | inr e ↦ rw (flip, e) refl
      ]

  rate_limit-eq :
      (n : ℕ) (now : F) (request : Request) (requests : Dict (List F))
      → let id = get_client_id request in
        let ts = recent now (get_or id [] requests) in
        rate_limit n now request requests
        ≡ (put id (entries_after n now ts) requests, answer n id ts)
  unfolding rate_limit
  rate_limit-eq n now request requests =
      let id = get_client_id request in
      by_size n id now (recent now (get_or id [] requests)) requests

  one_minute :
      (id j : String) (now t : F)
      → in_last_minute j now ((id, t) ∷ []) ≡ (if str_eq id j then recent now (t ∷ []) else [])
  unfolding recent
  one_minute id j now t = ground arith

  noted_other :
      (n : ℕ) (now now' : F) (id j : String) (ts : List F) (log : List (String × F))
      → str_eq id j ≡ false
      → in_last_minute j now' (noted n now id ts log) ≡ in_last_minute j now' log
  noted_other n now now' id j ts log e = elim (Bool-cases (ltb (length ts) n)) [
    | inl room ↦ rw room (
        in_last_minute-append j now' log ((id, now) ∷ [])
        ∙ ap (λ xs. in_last_minute j now' log ++ xs)
            (one_minute id j now' now ∙ ap (λ b. if b then recent now' (now ∷ []) else []) e)
        ∙ append-nil (in_last_minute j now' log))
    | inr full ↦ rw full refl
  ]

  noted_self :
      (n : ℕ) (now now' : F) (id : String) (ts : List F) (log : List (String × F))
      → recent now' ts ≡ in_last_minute id now' log
      → recent now' (entries_after n now ts) ≡ in_last_minute id now' (noted n now id ts log)
  noted_self n now now' id ts log e = elim (Bool-cases (ltb (length ts) n)) [
    | inl room ↦ rw room (
        recent-append now' ts (now ∷ [])
        ∙ ap (λ xs. xs ++ recent now' (now ∷ [])) e
        ∙ ap (λ xs. in_last_minute id now' log ++ xs)
            (sym (
              one_minute id id now' now
              ∙ ap (λ b. if b then recent now' (now ∷ []) else []) (eq_refl id)))
        ∙ sym (in_last_minute-append id now' log ((id, now) ∷ [])))
    | inr full ↦ rw full e
  ]

  Agrees-step :
      (n : ℕ) (before now : F) (id : String) (requests : Dict (List F)) (log : List (String × F))
      → le before now ≡ true
      → Agrees before requests log
      → let ts = in_last_minute id now log in
        Agrees now (put id (entries_after n now ts) requests) (noted n now id ts log)
  Agrees-step n before now id requests log h agrees j now' h' =
      let ts = in_last_minute id now log in
      let es = entries_after n now ts in
      let later = laws.le_trans before now now' h h' in
      let of = λ (o : Option (List F)). recent now' (elim o [ none ↦ [] | some v ↦ v ]) in
      elim (Bool-cases (str_eq id j)) [
        | inl e ↦
            let same = (eq_iff id j).0 e in
            subst
              (λ k.
                recent now' (get_or k [] (put id es requests))
                ≡ in_last_minute k now' (noted n now id ts log))
              same
              (ap of (get-put_self id es requests)
                ∙ noted_self n now now' id ts log (
                    ap (recent now') (sym (agrees id now h))
                    ∙ recent-recent now now' (get_or id [] requests) h'
                    ∙ agrees id now' later))
        | inr e ↦
            ap of (get-put_ne id j es requests e)
            ∙ agrees j now' later
            ∙ sym (noted_other n now now' id j ts log e)
      ]

  rate_limit_all-Agrees :
      (n : ℕ) (before : F) (rs : List (F × Request)) (requests : Dict (List F))
      (log : List (String × F))
      → IsClock before rs
      → Agrees before requests log
      → rate_limit_all n rs requests ≡ admit_all n rs log
  unfolding rate_limit_all admit_all
  rate_limit_all-Agrees n before [] requests log h agrees = refl
  rate_limit_all-Agrees n before ((now, request) ∷ rs) requests log (h, hs) agrees =
      let id = get_client_id request in
      let ts = in_last_minute id now log in
      let same =
        rate_limit-eq n now request requests
        ∙ ap (λ es. (put id (entries_after n now es) requests, answer n id es)) (agrees id now h) in
      ap (λ o. o.1 ∷ rate_limit_all n rs o.0) same
      ∙ ap (λ answers. answer n id ts ∷ answers)
          (rate_limit_all-Agrees n now rs (put id (entries_after n now ts) requests)
            (noted n now id ts log) hs (Agrees-step n before now id requests log h agrees))

  -- On a clock that does not go back, the limiter, which starts empty and forgets what is older than a
  -- minute, answers every request as one that keeps the full history of its admissions: a request
  -- passes exactly while fewer requests of its client than the limit were admitted in the last
  -- minute, and is refused with 429 otherwise, or with an IndexError if there are none of them, that
  -- is with a limit of 0.
  pub rate_limit_all-eq-admit_all :
      (n : ℕ) (start : F) (rs : List (F × Request))
      → IsClock start rs
      → rate_limit_all n rs reset_rate_limits ≡ admit_all n rs []
  unfolding recent get
  rate_limit_all-eq-admit_all n start rs h =
      rate_limit_all-Agrees n start rs reset_rate_limits [] h (λ id now k. refl)
