-- ===== src/Base/Dict.antt =====
-- Python's `dict`, as an association list in insertion order: `get`, item assignment, `del`.
use acs_base_model_api.Base.{
  ◌≡◌, sym, ◌∙◌, ◌≢◌, inl, inr, Option, none, some, List, [], ◌∷◌, arith, Equatable, ◌==◌, beq_refl,
  beq_ne, Bool-cases, if◌then◌else◌,
}

abbrev pub Dict {ℓ κ} : Type ℓ → Type κ → Type (ℓ ⊔ κ)
Dict K V = List (K × V)

module _ {ℓ κ} {K : Type ℓ} {V : Type κ} where
  abbrev pub keys : Dict K V → List K
  keys [] = []
  keys ((k, v) ∷ d) = k ∷ keys d

module _ {ℓ κ} {K : Type ℓ} {V : Type κ} ⦃e : Equatable K⦄ where
  unfoldable pub get : K → Dict K V → Option V
  get k [] = none
  get k ((j, v) ∷ d) = if j == k then some v else get k d

  unfoldable pub set : K → V → Dict K V → Dict K V
  set k v [] = (k, v) ∷ []
  set k v ((j, w) ∷ d) = if j == k then (j, v) ∷ d else (j, w) ∷ set k v d

  pub get-set_self : (k : K) (v : V) (d : Dict K V) → get k (set k v d) ≡ some v
  unfolding get set
  get-set_self k v [] = rw (beq_refl k)
  get-set_self k v ((j, w) ∷ d) = elim (Bool-cases (j == k)) [
    | inl eq ↦ rw (eq, eq)
    | inr ne ↦ rw (ne, ne) (get-set_self k v d)
  ]

  pub get-set_ne : (k j : K) (v : V) (d : Dict K V) → k ≢ j → get j (set k v d) ≡ get j d
  unfolding get set
  get-set_ne k j v [] h = rw (beq_ne k j h)
  get-set_ne k j v ((i, w) ∷ d) h = elim (Bool-cases (i == k)) [
    | inl eq ↦ rw (eq, beq_ne i j (λ p. h (sym ((e.equals_iff i k).0 eq) ∙ p)))
    | inr ne ↦ rw ne (ground (arith, get-set_ne k j v d h))
  ]
