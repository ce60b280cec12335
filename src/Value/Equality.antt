-- ===== src/Value/Equality.antt =====
-- Python's `==` between the values of a dictionary: dictionaries compare by their entries, in any
-- order, and a `bool` as the number it is. NaN is not equal to itself.
use post_rag_drift_evaluator.Prelude.{
  ℕ, suc, String, Bool, true, false, ◌&&◌, Option, none, some, str_eq, ◌==◌, if◌then◌else◌,
}
use post_rag_drift_evaluator.Float.{Float}
use post_rag_drift_evaluator.Value.Defs.{
  Value, nothing, flag, num, text, items, dict, Items, nil, cons, Fields, end, field,
}

module _ {F : Type 0} where
  unfoldable pub field_get : String → Fields F → Option (Value F)
  field_get k end = none
  field_get k (field j v rest) = if str_eq j k then some v else field_get k rest

  unfoldable pub field_count : Fields F → ℕ
  field_count end = 0
  field_count (field j v rest) = suc (field_count rest)

module _ {F : Type 0} ⦃fl : Float F⦄ where
  abbrev bool_num : Bool → F
  bool_num true = fl.decimal 1 0
  bool_num false = fl.decimal 0 0

abbrev same_flag : Bool → Bool → Bool
same_flag true b = b
same_flag false true = false
same_flag false false = true

unfoldable mutual
  unfolding field_get field_count

  pub value_eq : {F : Type 0} ⦃fl : Float F⦄ → Value F → Value F → Bool
  value_eq nothing nothing = true
  value_eq (flag a) (flag b) = same_flag a b
  value_eq ⦃fl⦄ (flag a) (num y) = fl.feq (bool_num a) y
  value_eq ⦃fl⦄ (num x) (num y) = fl.feq x y
  value_eq ⦃fl⦄ (num x) (flag b) = fl.feq x (bool_num b)
  value_eq (text s) (text t) = str_eq s t
  value_eq (items xs) (items ys) = items_eq xs ys
  value_eq (dict fs) (dict gs) = field_count fs == field_count gs && fields_within fs gs
  value_eq _ _ = false

  pub items_eq : {F : Type 0} ⦃fl : Float F⦄ → Items F → Items F → Bool
  items_eq nil nil = true
  items_eq (cons v xs) (cons w ys) = value_eq v w && items_eq xs ys
  items_eq _ _ = false

  -- every entry of the first is equal in the second
  pub fields_within : {F : Type 0} ⦃fl : Float F⦄ → Fields F → Fields F → Bool
  fields_within end gs = true
  fields_within (field k v fs) gs =
      elim (field_get k gs) [ none ↦ false | some w ↦ value_eq v w ] && fields_within fs gs
