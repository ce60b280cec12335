-- ===== src/Api/Auth/Verdicts.antt =====
-- Which requests pass the key check, and which are refused (api/middleware/auth.py).
use Prim.Native.String.{◌++◌ as ◌+++◌, slice, len}
use mathlib.Core.List.{Memᴰ}
use mathlib.Core.List.Memᴰ
use text.Mathlib.Text.{starts_with}
use text.Mathlib.TextEquality.{starts_with_iff}
use text.Mathlib.TextPositions.{len-append, slice-append_right, starts_with-append}
use post_rag_drift_evaluator.Prelude.{
  String, Bool, Bool-cases, true, false, not, ◌&&◌, Option, none, some, List, [], ◌∷◌, str_eq,
  eq_iff, ◌||◌, if◌then◌else◌, ◌≡◌, ◌≢◌, ◌⊎◌, inl, inr, refl, sym, ap, ◌∙◌, subst, arith,
  false≢true,
}
use post_rag_drift_evaluator.Result.{Result, ok, err, http_unauthorized}
use post_rag_drift_evaluator.Api.Auth.{
  KeyConfig, AuthRequest, is_public_path, text_of, scheme, token_of, presented, contains, accept,
  verify_api_key,
}

-- The key that a request presents: its X-API-Key, or without one what its Authorization has behind
-- "Bearer ".
abbrev pub Presents : AuthRequest → String → Type 0
Presents r key =
    (key ≢ "")
    × ((text_of r.api_key ≡ key)
        ⊎ ((text_of r.api_key ≡ "") × (text_of r.authorization ≡ scheme +++ key)))

-- A path that needs a key.
abbrev pub guarded : KeyConfig → AuthRequest → Bool
guarded c r = c.api_key_required && not (is_public_path r.path)

abbrev pub IsVerdict : KeyConfig → AuthRequest → Result (Option String) → Type 0
IsVerdict c r (ok none) = guarded c r ≡ false
IsVerdict c r (ok (some key)) = (guarded c r ≡ true) × Presents r key × Memᴰ key c.api_keys
IsVerdict c r (err e) =
    (e ≡ http_unauthorized)
    × (guarded c r ≡ true)
    × ((key : String) → Presents r key → ¬ Memᴰ key c.api_keys)

token_of-append : (u : String) → token_of (scheme +++ u) ≡ u
token_of-append u =
    ap (slice (scheme +++ u) (len scheme)) (len-append scheme u) ∙ slice-append_right scheme u

-- A text with the scheme is the scheme and its token.
token_of_lem : (auth : String) → starts_with auth scheme ≡ true → auth ≡ scheme +++ token_of auth
token_of_lem auth h =
    let (u, e) = (starts_with_iff auth scheme).0 h in
    subst (λ s. s ≡ scheme +++ token_of s) e (ap (λ v. scheme +++ v) (sym (token_of-append u)))

contains-Mem : (xs : List String) (s : String) → contains xs s ≡ true → Memᴰ s xs
contains-Mem [] s h = absurd (ground (arith, h))
contains-Mem (x ∷ xs) s h = elim (Bool-cases (str_eq x s)) [
  | inl same ↦ Memᴰ.head (sym ((eq_iff x s).0 same))
  | inr other ↦ Memᴰ.tail (contains-Mem xs s (subst (λ b. (b || contains xs s) ≡ true) other h))
]

Mem-contains : (xs : List String) (s : String) → Memᴰ s xs → contains xs s ≡ true
Mem-contains [] s m = absurd (Memᴰ.not-nil m)
Mem-contains (x ∷ xs) s m = elim (Memᴰ.cases_cons m) [
  | inl same ↦ rw ((eq_iff x s).1 (sym same)) refl
  | inr later ↦ ground (arith, Mem-contains xs s later)
]

-- The key that the check reads.
abbrev given : AuthRequest → String
given r = text_of (presented r.api_key (text_of r.authorization))

differs_lem : (s t : String) → s ≢ t → str_eq s t ≡ false
differs_lem s t h = elim (Bool-cases (str_eq s t)) [
  | inl same ↦ absurd (h ((eq_iff s t).0 same))
  | inr other ↦ other
]

module _ (k : Option String) (auth : String) where
  abbrev by_tests : Bool → Bool → Option String
  by_tests a b = if a then (if b then some (token_of auth) else k) else k

  presented-header : text_of k ≢ "" → presented k auth ≡ k
  presented-header h = ap (λ a. by_tests a (starts_with auth scheme)) (differs_lem (text_of k) "" h)

  presented-bearer :
      text_of k ≡ "" → starts_with auth scheme ≡ true → presented k auth ≡ some (token_of auth)
  presented-bearer h e =
      ap (λ a. by_tests a (starts_with auth scheme)) ((eq_iff (text_of k) "").1 h)
      ∙ ap (by_tests true) e

  presented-nothing : text_of k ≡ "" → starts_with auth scheme ≡ false → presented k auth ≡ k
  presented-nothing h e =
      ap (λ a. by_tests a (starts_with auth scheme)) ((eq_iff (text_of k) "").1 h)
      ∙ ap (by_tests true) e

-- Without a key in the first header, the key that is read comes from the second.
given-token :
    (r : AuthRequest)
    → text_of r.api_key ≡ ""
    → given r ≢ ""
    → text_of r.authorization ≡ scheme +++ given r
given-token r e h =
    let auth = text_of r.authorization in
    elim (Bool-cases (starts_with auth scheme)) [
      | inl b ↦
          subst (λ o. auth ≡ scheme +++ text_of o) (sym (presented-bearer r.api_key auth e b))
            (token_of_lem auth b)
      | inr b ↦ absurd (h (ap text_of (presented-nothing r.api_key auth e b) ∙ e))
    ]

given-Presents : (r : AuthRequest) → given r ≢ "" → Presents r (given r)
given-Presents r h = elim (Bool-cases (str_eq (text_of r.api_key) "")) [
  | inl t ↦ let e = (eq_iff (text_of r.api_key) "").0 t in (h, inr (e, given-token r e h))
  | inr f ↦ (
    h,
    inl (
        ap text_of (
          sym (
            presented-header r.api_key (text_of r.authorization)
              (λ e. false≢true (sym f ∙ (eq_iff (text_of r.api_key) "").1 e))))),
  )
]

Presents-given : (r : AuthRequest) (key : String) → Presents r key → given r ≡ key
Presents-given r key (h, inl e) =
    ap text_of (presented-header r.api_key (text_of r.authorization) (λ e'. h (sym e ∙ e'))) ∙ e
Presents-given r key (h, inr (e, e')) =
    ap text_of (
      presented-bearer r.api_key (text_of r.authorization) e
        (subst (λ s. starts_with s scheme ≡ true) (sym e') (starts_with-append scheme key)))
    ∙ ap token_of e'
    ∙ token_of-append key

module _ (c : KeyConfig) (r : AuthRequest) where
  accept_by_tests :
      (empty found : Bool)
      → guarded c r ≡ true
      → str_eq (given r) "" ≡ empty
      → contains c.api_keys (given r) ≡ found
      → IsVerdict c r (if empty || not found then err http_unauthorized else ok (some (given r)))
  accept_by_tests true found g e m =
      let nothing_given = (eq_iff (given r) "").0 e in
      (refl, g, λ key p k. p.0 (sym (Presents-given r key p) ∙ nothing_given))
  accept_by_tests false true g e m = (
    g,
    given-Presents r (λ e'. false≢true (sym e ∙ (eq_iff (given r) "").1 e')),
    contains-Mem c.api_keys (given r) m,
  )
  accept_by_tests false false g e m = (
    refl,
    g,
    λ key p k.
        let found = subst (λ s. Memᴰ s c.api_keys) (sym (Presents-given r key p)) k in
        false≢true (sym m ∙ Mem-contains c.api_keys (given r) found),
  )

  guarded_by_tests :
      (required public : Bool)
      → c.api_key_required ≡ required
      → is_public_path r.path ≡ public
      → guarded c r ≡ (required && not public)
  guarded_by_tests required public e e' =
      ap (λ b. b && not (is_public_path r.path)) e ∙ ap (λ b. required && not b) e'

  verify_by_tests :
      (required public : Bool)
      → c.api_key_required ≡ required
      → is_public_path r.path ≡ public
      → IsVerdict c r (if not required || public then ok none else accept c (given r))
  verify_by_tests false public e e' = guarded_by_tests false public e e'
  verify_by_tests true true e e' = guarded_by_tests true true e e'
  verify_by_tests true false e e' =
      accept_by_tests (str_eq (given r) "") (contains c.api_keys (given r))
        (guarded_by_tests true false e e') refl refl

-- A request that needs no key passes without one. Any other passes exactly if it presents one of the
-- configured keys, which the check returns, and is answered 401 if not.
pub verify_api_key-IsVerdict :
    (c : KeyConfig) (r : AuthRequest) → IsVerdict c r (verify_api_key c r)
unfolding verify_api_key
verify_api_key-IsVerdict c r =
    verify_by_tests c r c.api_key_required (is_public_path r.path) refl refl
