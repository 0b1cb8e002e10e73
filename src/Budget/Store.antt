-- ===== src/Budget/Store.antt =====
-- The rows that authentication reads and writes: API keys, users and the usage counters
-- (auth.py; columns of models.py). Row ids are numbers. A date is a year, a month and a day.
use acs_base_model_api.Base.{
  ℕ, String, Bool, false, ◌&&◌, Option, none, some, List, [], ◌∷◌, nat_eq, ◌==◌, if◌then◌else◌,
}

pub record Date : Type 0 where
  pub year : ℕ
  pub month : ℕ
  pub day : ℕ

abbrev pub same_date : Date → Date → Bool
same_date a b = a.year == b.year && (a.month == b.month && a.day == b.day)

unfoldable pub current_period_start : Date → Date
current_period_start now = record { year = now.year; month = now.month; day = 1 }

unfoldable pub current_day_start : Date → Date
current_day_start now = record { year = now.year; month = now.month; day = now.day }

pub record ApiKey : Type 0 where
  pub id : ℕ
  pub user_id : ℕ
  pub key_hash : String
  pub key_prefix : String
  pub revoked_at : Option ℕ
  pub disabled_at : Option ℕ
  pub scopes : Option (List String)
  pub created_at : ℕ
  pub last_used_at : Option ℕ
  pub monthly_token_budget : ℕ
  pub daily_token_budget : Option ℕ
  pub monthly_input_token_budget : Option ℕ
  pub monthly_output_token_budget : Option ℕ
  pub monthly_activation_budget : ℕ
  pub monthly_harvest_budget : ℕ

pub record User : Type 0 where
  pub id : ℕ
  pub email : String
  pub status : String
  pub monthly_token_budget_total : Option ℕ

-- A row of `usage_monthly` or `usage_daily`; its key is (key_id, period_start).
pub record UsageRow : Type 0 where
  pub key_id : ℕ
  pub period_start : Date
  pub tokens_prompt : ℕ
  pub tokens_completion : ℕ
  pub request_count : ℕ

pub record Db : Type 0 where
  pub keys : List ApiKey
  pub users : List User
  pub monthly : List UsageRow
  pub daily : List UsageRow

-- a lookup by primary key or unique column: at most one row fits
abbrev pub find {ℓ} : {A : Type ℓ} → (A → Bool) → List A → Option A
find p [] = none
find p (x ∷ xs) = if p x then some x else find p xs

abbrev pub is_row : ℕ → Date → UsageRow → Bool
is_row key_id start r = r.key_id == key_id && same_date r.period_start start

-- the owner of a key, as the join on `ApiKey.id` finds it
abbrev pub owner_of : List ApiKey → ℕ → Option ℕ
owner_of keys key_id = elim (find (λ k. k.id == key_id) keys) [
  | none ↦ none
  | some k ↦ some k.user_id
]

abbrev pub is_owned_by : List ApiKey → ℕ → ℕ → Bool
is_owned_by keys user_id key_id = elim (owner_of keys key_id) [
  | none ↦ false
  | some u ↦ u == user_id
]
