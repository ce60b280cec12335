-- ===== src/Prelude/Sort.antt =====
-- Python's `sorted` and `list.sort`: stable, by a strict test `before`. Where the test is a strict
-- weak order, every stable sort gives this list, so insertion stands for the built-in one.
use Prim.Native.Nat.{suc}
use mathlib.Core.Path.{◌≡◌, refl, ap, ◌∙◌}
use mathlib.Core.Bool.{Bool, true, false}
use mathlib.Core.List.{List, [], ◌∷◌, map, Perm}
use mathlib.Core.List.Perm
use mathlib.Core.Logic.{inl, inr}
use native.Mathlib.Omega.{arith}
use post_rag_drift_evaluator.Prelude.Tests.{if◌then◌else◌, Bool-cases}
use post_rag_drift_evaluator.Prelude.Lists.{length, All}

module _ {ℓ} {A : Type ℓ} (before : A → A → Bool) where
  -- An earlier item is put in front of the later ones unless one of them must come before it.
  unfoldable pub place : A → List A → List A
  place x [] = x ∷ []
  place x (y ∷ ys) = let rest = place x ys in if before y x then y ∷ rest else x ∷ y ∷ ys

  unfoldable pub sort_by : List A → List A
  unfolding place
  sort_by [] = []
  sort_by (x ∷ xs) = place x (sort_by xs)

  -- No later item must come before an earlier one.
  abbrev pub Sorted : List A → Type 0
  Sorted [] = Unit
  Sorted (x ∷ xs) = All (λ y. before y x ≡ false) xs × Sorted xs

  place-perm : (x : A) (xs : List A) → Perm (place x xs) (x ∷ xs)
  unfolding place
  place-perm x [] = Perm.refl _
  place-perm x (y ∷ ys) = elim (Bool-cases (before y x)) [
    | inl e ↦ rw e (Perm.trans (Perm.cons y (place-perm x ys)) (Perm.swap x y ys))
    | inr e ↦ rw e (Perm.refl _)
  ]

  pub sort_by-perm : (xs : List A) → Perm (sort_by xs) xs
  unfolding sort_by
  sort_by-perm [] = Perm.refl []
  sort_by-perm (x ∷ xs) = Perm.trans (place-perm x (sort_by xs)) (Perm.cons x (sort_by-perm xs))

  length-place : (x : A) (xs : List A) → length (place x xs) ≡ suc (length xs)
  unfolding place
  length-place x [] = refl
  length-place x (y ∷ ys) = ground (arith, length-place x ys)

  pub length-sort_by : (xs : List A) → length (sort_by xs) ≡ length xs
  unfolding sort_by
  length-sort_by [] = refl
  length-sort_by (x ∷ xs) = length-place x (sort_by xs) ∙ ap suc (length-sort_by xs)

  All-place {κ} : (P : A → Type κ) (x : A) (xs : List A) → P x → All P xs → All P (place x xs)
  unfolding place
  All-place P x [] p ps = (p, ps)
  All-place P x (y ∷ ys) p (q, qs) = elim (Bool-cases (before y x)) [
    | inl e ↦ rw e (q, All-place P x ys p qs)
    | inr e ↦ rw e (p, (q, qs))
  ]

  pub All-sort_by {κ} : (P : A → Type κ) (xs : List A) → All P xs → All P (sort_by xs)
  unfolding sort_by
  All-sort_by P [] h = tt
  All-sort_by P (x ∷ xs) (h, hs) = All-place P x (sort_by xs) h (All-sort_by P xs hs)

  place-Sorted_tail {κ} :
      (P : A → Type κ) (x y : A) (ys : List A)
      → ((z : A) → P z → before z y ≡ false → before z x ≡ false)
      → All P ys
      → All (λ z. before z y ≡ false) ys
      → All (λ z. before z x ≡ false) ys
  place-Sorted_tail P x y [] step ps h = tt
  place-Sorted_tail P x y (z ∷ zs) step (p, ps) (h, hs) =
      (step z p h, place-Sorted_tail P x y zs step ps hs)

  module _ {κ} (P : A → Type κ) (asymm : (x y : A) → before x y ≡ true → before y x ≡ false)
      (trans : (x y z : A)
        → P x
        → P y
        → P z
        → before y x ≡ false
        → before z y ≡ false
        → before z x ≡ false) where
    place-Sorted : (x : A) (xs : List A) → P x → All P xs → Sorted xs → Sorted (place x xs)
    unfolding place
    place-Sorted x [] p ps h = (tt, tt)
    place-Sorted x (y ∷ ys) p (q, qs) (h, hs) = elim (Bool-cases (before y x)) [
      | inl e ↦
          rw e (All-place (λ z. before z y ≡ false) x ys (asymm y x e) h, place-Sorted x ys p qs hs)
      | inr e ↦
          rw e ((e, place-Sorted_tail P x y ys (λ z r k. trans x y z p q r e k) qs h), (h, hs))
    ]

    -- Items on which "not before" is transitive are put in order.
    pub sort_by-Sorted : (xs : List A) → All P xs → Sorted (sort_by xs)
    unfolding sort_by
    sort_by-Sorted [] h = tt
    sort_by-Sorted (x ∷ xs) (h, hs) =
        place-Sorted x (sort_by xs) h (All-sort_by P xs hs) (sort_by-Sorted xs hs)

  place-front : (x : A) (xs : List A) → All (λ y. before y x ≡ false) xs → place x xs ≡ x ∷ xs
  unfolding place
  place-front x [] h = refl
  place-front x (y ∷ ys) (h, hs) = rw h refl

  -- A sorted list is left as it is.
  pub sort_by-of_Sorted : (xs : List A) → Sorted xs → sort_by xs ≡ xs
  unfolding sort_by
  sort_by-of_Sorted [] h = refl
  sort_by-of_Sorted (x ∷ xs) (h, hs) = ap (place x) (sort_by-of_Sorted xs hs) ∙ place-front x xs h

-- A map that keeps the test commutes with the sort.
module _ {ℓ κ} {A : Type ℓ} {B : Type κ} (before : A → A → Bool) (before' : B → B → Bool)
    (f : A → B) (same : (x y : A) → before' (f x) (f y) ≡ before x y) where
  map-place : (x : A) (xs : List A) → map f (place before x xs) ≡ place before' (f x) (map f xs)
  unfolding place
  map-place x [] = refl
  map-place x (y ∷ ys) = elim (Bool-cases (before y x)) [
    | inl e ↦ rw (e, same y x ∙ e) (ap (λ zs. f y ∷ zs) (map-place x ys))
    | inr e ↦ rw (e, same y x ∙ e) refl
  ]

  pub map-sort_by : (xs : List A) → map f (sort_by before xs) ≡ sort_by before' (map f xs)
  unfolding sort_by
  map-sort_by [] = refl
  map-sort_by (x ∷ xs) = map-place x (sort_by before xs) ∙ ap (place before' (f x)) (map-sort_by xs)
