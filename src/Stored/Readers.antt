-- ===== src/Stored/Readers.antt =====
-- What the `from_dict` methods read a dictionary with: `data[key]` and `data.get(key, fallback)`
-- at the declared type of a field. Python checks no types there. Data of other types, of which
-- it builds an object all the same, is `untyped`.
use post_rag_drift_evaluator.Prelude.{String, Option, none, some, List, [], ◌∷◌, map, ◌≡◌, refl, ap}
use post_rag_drift_evaluator.Dict.{Dict, get}
use post_rag_drift_evaluator.Value.{
  Value, nothing, num, text, items, dict, Items, nil, cons, fields_of, entries,
}
use post_rag_drift_evaluator.Result.{Error, key_error}

pub data Loaded {ℓ} (A : Type ℓ) : Type ℓ where
  loaded : A → Loaded A
  raised : Error → Loaded A
  untyped : Loaded A

infixl 5 ◌>>=◌
abbrev pub ◌>>=◌ {ℓ κ} : {A : Type ℓ} {B : Type κ} → Loaded A → (A → Loaded B) → Loaded B
loaded a >>= f = f a
raised e >>= f = raised e
untyped >>= f = untyped

module _ {F : Type 0} where
  abbrev pub as_text : Value F → Loaded String
  as_text (text s) = loaded s
  as_text _ = untyped

  abbrev pub as_num : Value F → Loaded F
  as_num (num x) = loaded x
  as_num _ = untyped

  abbrev pub as_dict : Value F → Loaded (Dict (Value F))
  as_dict (dict fs) = loaded (entries fs)
  as_dict _ = untyped

  abbrev pub as_optional {ℓ} : {A : Type ℓ} → (Value F → Loaded A) → Value F → Loaded (Option A)
  as_optional f nothing = loaded none
  as_optional f v = do a ← f v; loaded (some a)

  -- `[f(x) for x in xs]`
  unfoldable pub load_all {ℓ} : {A : Type ℓ} → (Value F → Loaded A) → Items F → Loaded (List A)
  load_all f nil = loaded []
  load_all f (cons v rest) = do a ← f v; rest_items ← load_all f rest; loaded (a ∷ rest_items)

  abbrev pub as_list {ℓ} : {A : Type ℓ} → (Value F → Loaded A) → Value F → Loaded (List A)
  as_list f (items xs) = load_all f xs
  as_list f _ = untyped

  -- f(data[key])
  abbrev pub load {ℓ} : {A : Type ℓ} → (Value F → Loaded A) → String → Dict (Value F) → Loaded A
  load f k d = elim (get k d) [ none ↦ raised key_error | some v ↦ f v ]

  -- f(data.get(key, fallback))
  abbrev pub load_or {ℓ} :
      {A : Type ℓ} → (Value F → Loaded A) → A → String → Dict (Value F) → Loaded A
  load_or f a k d = elim (get k d) [ none ↦ loaded a | some v ↦ f v ]

  -- A list as a value.
  unfoldable pub items_of : List (Value F) → Items F
  items_of [] = nil
  items_of (v ∷ vs) = cons v (items_of vs)

  abbrev pub texts : List String → Value F
  texts ss = items (items_of (map text ss))

  abbrev pub optional_text : Option String → Value F
  optional_text none = nothing
  optional_text (some s) = text s

  pub entries-fields_of : (d : Dict (Value F)) → entries (fields_of d) ≡ d
  unfolding entries fields_of
  entries-fields_of [] = refl
  entries-fields_of ((k, v) ∷ d) = ap (λ rest. (k, v) ∷ rest) (entries-fields_of d)

  -- Loading takes back what writing each item gave, if it does so for one.
  pub load_all-map {ℓ} :
      {A : Type ℓ} (f : Value F → Loaded A) (g : A → Value F)
      → ((a : A) → f (g a) ≡ loaded a)
      → (xs : List A) → load_all f (items_of (map g xs)) ≡ loaded xs
  unfolding load_all items_of
  load_all-map f g h [] = refl
  load_all-map f g h (a ∷ xs) = rw (h a, load_all-map f g h xs) refl

pub load_all-texts :
    (F : Type 0) (ss : List String)
    → load_all (as_text {F = F}) (items_of (map text ss)) ≡ loaded ss
load_all-texts F = load_all-map as_text text (λ s. refl)

pub optional_round_trip :
    (F : Type 0) (o : Option String) → as_optional as_text (optional_text {F = F} o) ≡ loaded o
optional_round_trip F none = refl
optional_round_trip F (some s) = refl

-- `[h(x) for x in xs]`, or `None`.
abbrev pub optional_list {ℓ} : {F : Type 0} {A : Type ℓ} → (A → Value F) → Option (List A) → Value F
optional_list h none = nothing
optional_list h (some xs) = items (items_of (map h xs))

pub optional_list_round_trip {ℓ} :
    {F : Type 0} {A : Type ℓ} (f : Value F → Loaded A) (h : A → Value F)
    → ((a : A) → f (h a) ≡ loaded a)
    → (o : Option (List A)) → as_optional (as_list f) (optional_list h o) ≡ loaded o
optional_list_round_trip f h e none = refl
optional_list_round_trip f h e (some xs) = rw (load_all-map f h e xs) refl
