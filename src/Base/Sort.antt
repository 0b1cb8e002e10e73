-- ===== src/Base/Sort.antt =====
-- Python's `sorted` and SQL's `ORDER BY`, as a stable insertion sort by a Boolean order.
use mathlib.Core.List.{Perm}
use mathlib.Core.List.Perm
use Prim.Native.Nat.{Ordering}
use Prim.Native.String.{compare}
use acs_base_model_api.Base.{
  ◌≡◌, inl, inr, String, Bool, true, false, List, [], ◌∷◌, if◌then◌else◌, Bool-cases,
}

module _ {ℓ} {A : Type ℓ} (le : A → A → Bool) where
  pub insert : A → List A → List A
  insert x [] = x ∷ []
  insert x (y ∷ ys) = if le x y then x ∷ y ∷ ys else y ∷ insert x ys

  unfoldable pub sort_by : List A → List A
  unfolding insert
  sort_by [] = []
  sort_by (x ∷ xs) = insert x (sort_by xs)

  insert-perm : (x : A) (xs : List A) → Perm (insert x xs) (x ∷ xs)
  unfolding insert
  insert-perm x [] = Perm.refl (x ∷ [])
  insert-perm x (y ∷ ys) = elim (Bool-cases (le x y)) [
    | inl first ↦ rw first (Perm.refl (x ∷ y ∷ ys))
    | inr later ↦ rw later (Perm.trans (Perm.cons y (insert-perm x ys)) (Perm.swap x y ys))
  ]

  pub sort_by-perm : (xs : List A) → Perm (sort_by xs) xs
  unfolding sort_by
  sort_by-perm [] = Perm.refl []
  sort_by-perm (x ∷ xs) = Perm.trans (insert-perm x (sort_by xs)) (Perm.cons x (sort_by-perm xs))

  -- every adjacent pair is in order
  abbrev pub IsSorted : List A → Type 0
  IsSorted [] = Unit
  IsSorted (x ∷ []) = Unit
  IsSorted (x ∷ y ∷ r) = (le x y ≡ true) × IsSorted (y ∷ r)

abbrev pub text_le : String → String → Bool
text_le a b = elim (compare a b) [ Ordering.gt ↦ false | _ ↦ true ]
