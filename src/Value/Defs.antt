-- ===== src/Value/Defs.antt =====
-- Values of the dictionaries that the program passes around as metadata (`dict[str, Any]`), and
-- what its code asks of them.
use post_rag_drift_evaluator.Prelude.{
  String, Bool, true, false, Option, none, some, List, [], ◌∷◌, concat,
}
use post_rag_drift_evaluator.Float.{Float}
use post_rag_drift_evaluator.Dict.{Dict, put}

show_flag : Bool → String
show_flag true = "True"
show_flag false = "False"

mutual
  pub data Value (F : Type 0) : Type 0 where
    nothing : Value F
    flag : Bool → Value F
    num : F → Value F
    text : String → Value F
    items : Items F → Value F
    dict : Fields F → Value F

  pub data Items (F : Type 0) : Type 0 where
    nil : Items F
    cons : Value F → Items F → Items F

  pub data Fields (F : Type 0) : Type 0 where
    end : Fields F
    field : String → Value F → Fields F → Fields F

module _ {F : Type 0} ⦃fl : Float F⦄ where
  -- `isinstance(value, int | float)` with the number: a `bool` is an `int` too.
  abbrev pub number? : Value F → Option F
  number? (num x) = some x
  number? (flag true) = some (fl.decimal 1 0)
  number? (flag false) = some (fl.decimal 0 0)
  number? _ = none

module _ {F : Type 0} where
  -- The entries of a dictionary value, in order.
  unfoldable pub entries : Fields F → Dict (Value F)
  entries end = []
  entries (field k v rest) = (k, v) ∷ entries rest

  -- A dictionary as a value.
  unfoldable pub fields_of : Dict (Value F) → Fields F
  fields_of [] = end
  fields_of ((k, v) ∷ d) = field k v (fields_of d)

  unfoldable pub elements : Items F → List (Value F)
  elements nil = []
  elements (cons v rest) = v ∷ elements rest

  -- `{**a, **b}`
  unfoldable pub merge : Dict (Value F) → Dict (Value F) → Dict (Value F)
  merge a [] = a
  merge a ((k, v) ∷ b) = merge (put k v a) b

-- `str(value)`, by way of `repr` inside a container. Quotes inside a quoted text are not escaped.
mutual
  unfolding show_flag

  repr_value : {F : Type 0} ⦃fl : Float F⦄ → Value F → String
  repr_value nothing = "None"
  repr_value (flag b) = show_flag b
  repr_value ⦃fl⦄ (num x) = fl.show x
  repr_value (text s) = concat ("'" ∷ s ∷ "'" ∷ [])
  repr_value (items xs) = concat ("[" ∷ repr_items xs ∷ "]" ∷ [])
  repr_value (dict fs) = concat ("{" ∷ repr_fields fs ∷ "}" ∷ [])

  repr_items : {F : Type 0} ⦃fl : Float F⦄ → Items F → String
  repr_items nil = ""
  repr_items (cons v nil) = repr_value v
  repr_items (cons v (cons w rest)) = concat (repr_value v ∷ ", " ∷ repr_items (cons w rest) ∷ [])

  repr_fields : {F : Type 0} ⦃fl : Float F⦄ → Fields F → String
  repr_fields end = ""
  repr_fields (field k v end) = concat ("'" ∷ k ∷ "': " ∷ repr_value v ∷ [])
  repr_fields (field k v (field j w rest)) =
      concat ("'" ∷ k ∷ "': " ∷ repr_value v ∷ ", " ∷ repr_fields (field j w rest) ∷ [])

unfoldable pub str_value : {F : Type 0} ⦃fl : Float F⦄ → Value F → String
unfolding repr_value
str_value (text s) = s
str_value v = repr_value v

abbrev pub dict_of : {F : Type 0} → Dict (Value F) → Value F
dict_of d = dict (fields_of d)
