-- ===== src/Base/Json.antt =====
-- JSON values as Python reads them: integers apart from other numbers, objects as lists of fields.
use acs_base_model_api.Base.{
  ℕ, suc, ◌+◌, ◌≡◌, refl, arith, Bool, [], ◌∷◌, Equatable, nat_eq, leb, ◌==◌, ◌&&◌, true, false,
  if◌then◌else◌,
}
use acs_base_model_api.Base.Text.{Text}

-- a Python `int`; `negsuc n` is -(n + 1)
pub data ℤ : Type 0 where
  pos : ℕ → ℤ
  negsuc : ℕ → ℤ

abbrev pub leb_ℤ : ℤ → ℤ → Bool
leb_ℤ (pos a) (pos b) = leb a b
leb_ℤ (pos a) (negsuc b) = false
leb_ℤ (negsuc a) (pos b) = true
leb_ℤ (negsuc a) (negsuc b) = leb b a

abbrev pub suc_ℤ : ℤ → ℤ
suc_ℤ (pos a) = pos (a + 1)
suc_ℤ (negsuc ℕ.zero) = pos 0
suc_ℤ (negsuc (suc n)) = negsuc n

abbrev pub text_eq : Text → Text → Bool
text_eq [] [] = true
text_eq [] (c ∷ t) = false
text_eq (c ∷ s) [] = false
text_eq (c ∷ s) (d ∷ t) = c == d && text_eq s t

pub text_eq-Eq : (s t : Text) → text_eq s t ≡ true → s ≡ t
text_eq-Eq [] [] h = refl
text_eq-Eq [] (c ∷ t) h = ground arith
text_eq-Eq (c ∷ s) [] h = ground arith
text_eq-Eq (c ∷ s) (d ∷ t) h = ground (arith, text_eq-Eq s t)

pub text_eq_refl : (t : Text) → text_eq t t ≡ true
text_eq_refl [] = refl
text_eq_refl (c ∷ t) = ground (arith, text_eq_refl t)

instance abbrev pub text_equatable : Equatable Text
text_equatable = record {
  equals = text_eq;
  equals_iff = λ s t. (text_eq-Eq s t, λ e. rw e (text_eq_refl t));
}

-- `real` is a number that is no integer, by its spelling.
mutual
  pub data Json : Type 0 where
    null : Json
    bool : Bool → Json
    int : ℤ → Json
    real : Text → Json
    str : Text → Json
    arr : Items → Json
    obj : Fields → Json

  pub data Items : Type 0 where
    end : Items
    item : Json → Items → Items

  pub data Fields : Type 0 where
    stop : Fields
    field : Text → Json → Fields → Fields

-- `raw.get(key)`: the last of repeated fields counts, and a missing one is null
abbrev pub field_or : Json → Text → Fields → Json
field_or d key stop = d
field_or d key (field k v rest) = field_or (if text_eq k key then v else d) key rest

abbrev pub get_field : Text → Fields → Json
get_field = field_or null
