-- ===== src/Dict.antt =====
-- Python's `dict` with string keys, in the order of insertion: a write to a present key keeps its
-- place, a new key goes to the end.
use post_rag_drift_evaluator.Prelude.{
  String, ◌≡◌, refl, Bool, true, false, Option, none, some, List, [], ◌∷◌, inl, inr, sym, subst,
  Option-cases, arith, str_eq, eq_iff, eq_refl, if◌then◌else◌, All,
}

abbrev pub Dict {ℓ} : Type ℓ → Type ℓ
Dict V = List (String × V)

module _ {ℓ} {V : Type ℓ} where
  -- d.get(k)
  unfoldable pub get : String → Dict V → Option V
  get k [] = none
  get k ((j, v) ∷ d) = if str_eq j k then some v else get k d

  -- d[k] = v
  unfoldable pub put : String → V → Dict V → Dict V
  put k v [] = (k, v) ∷ []
  put k v ((j, w) ∷ d) = if str_eq j k then (j, v) ∷ d else (j, w) ∷ put k v d

  -- d.get(k, fallback)
  abbrev pub get_or : String → V → Dict V → V
  get_or k fallback d = elim (get k d) [ none ↦ fallback | some v ↦ v ]

  -- d.pop(k)
  unfoldable pub remove : String → Dict V → Dict V
  remove k [] = []
  remove k ((j, v) ∷ d) = let rest = remove k d in if str_eq j k then rest else (j, v) ∷ rest

  -- `k in d`
  unfoldable pub has : String → Dict V → Bool
  unfolding get
  has k d = elim (get k d) [ none ↦ false | some v ↦ true ]

  -- `list(d)`
  unfoldable pub keys : Dict V → List String
  keys [] = []
  keys ((j, v) ∷ d) = j ∷ keys d

  -- d.values()
  unfoldable pub values : Dict V → List V
  values [] = []
  values ((j, v) ∷ d) = v ∷ values d

  pub get-put :
      (k j : String) (v : V) (d : Dict V)
      → get j (put k v d) ≡ (if str_eq k j then some v else get j d)
  unfolding get put
  get-put k j v [] = refl
  get-put k j v ((i, w) ∷ d) = ground (arith, eq_iff k j, eq_iff i k, eq_iff i j, get-put k j v d)

  pub get-remove :
      (k j : String) (d : Dict V) → get j (remove k d) ≡ (if str_eq k j then none else get j d)
  unfolding get remove
  get-remove k j [] = ground arith
  get-remove k j ((i, w) ∷ d) = ground (arith, eq_iff k j, eq_iff i k, eq_iff i j, get-remove k j d)

  pub get-put_self : (k : String) (v : V) (d : Dict V) → get k (put k v d) ≡ some v
  get-put_self k v d = ground (arith, get-put k k v d, eq_refl k)

  pub get-put_ne :
      (k j : String) (v : V) (d : Dict V) → str_eq k j ≡ false → get j (put k v d) ≡ get j d
  get-put_ne k j v d h = ground (arith, get-put k j v d)

  -- A predicate of all values survives a write of a value that has it.
  pub All-put {κ} :
      (P : V → Type κ) (k : String) (v : V) (d : Dict V)
      → P v
      → All P (values d)
      → All P (values (put k v d))
  unfolding put values
  All-put P k v [] p h = (p, tt)
  All-put P k v ((i, w) ∷ d) p (q, h) =
      elim (str_eq i k) as (λ b. All P (values (if b then (i, v) ∷ d else (i, w) ∷ put k v d))) [
        | true ↦ (p, h)
        | false ↦ (q, All-put P k v d p h)
      ]

  pub All-get {κ} :
      (P : V → Type κ) (k : String) (v : V) (d : Dict V) → All P (values d) → get k d ≡ some v → P v
  unfolding get values
  All-get P k v [] h e = absurd (ground arith)
  All-get P k v ((i, w) ∷ d) (q, h) e = ground (arith, All-get P k v d h)

  pub All-get_or {κ} :
      (P : V → Type κ) (k : String) (v : V) (d : Dict V) → P v → All P (values d) → P (get_or k v d)
  All-get_or P k v d p h = elim (Option-cases (get k d)) [
    | inl e ↦ subst (λ o. P (elim o [ none ↦ v | some w ↦ w ])) (sym e) p
    | inr (w, e) ↦ subst (λ o. P (elim o [ none ↦ v | some w ↦ w ])) (sym e) (All-get P k w d h e)
  ]
