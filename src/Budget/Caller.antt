-- ===== src/Budget/Caller.antt =====
-- `AuthedCaller` of auth.py: a caller's budgets and usage, and what remains in each dimension.
use acs_base_model_api.Base.{
  ℕ, ◌-◌, String, Bool, not, ◌&&◌, Option, none, some, is_some, nat_eq, ◌==◌, if◌then◌else◌,
}

pub record AuthedCaller : Type 0 where
  pub key_id : ℕ
  pub key_prefix : String
  pub user_email : String
  pub user_id : ℕ
  pub monthly_token_budget : ℕ
  pub tokens_used_this_month : ℕ
  pub daily_token_budget : Option ℕ
  pub tokens_used_today : ℕ
  pub monthly_token_budget_total : Option ℕ
  pub user_tokens_used_this_month : ℕ
  pub monthly_input_token_budget : Option ℕ
  pub monthly_output_token_budget : Option ℕ
  pub input_tokens_used_this_month : ℕ
  pub output_tokens_used_this_month : ℕ
  pub monthly_activation_budget : ℕ
  pub monthly_harvest_budget : ℕ

-- max(0, budget - used), where a budget is set; `-` stops at 0
abbrev pub left_of : Option ℕ → ℕ → Option ℕ
left_of none used = none
left_of (some budget) used = some (budget - used)

-- 0 means "unlimited" in this dimension only
unfoldable pub per_key_monthly_remaining : AuthedCaller → Option ℕ
per_key_monthly_remaining c =
    if c.monthly_token_budget == 0
    then none
    else some (c.monthly_token_budget - c.tokens_used_this_month)

unfoldable pub user_aggregate_remaining : AuthedCaller → Option ℕ
user_aggregate_remaining c = left_of c.monthly_token_budget_total c.user_tokens_used_this_month

unfoldable pub daily_remaining : AuthedCaller → Option ℕ
daily_remaining c = left_of c.daily_token_budget c.tokens_used_today

unfoldable pub input_remaining : AuthedCaller → Option ℕ
input_remaining c = left_of c.monthly_input_token_budget c.input_tokens_used_this_month

unfoldable pub output_remaining : AuthedCaller → Option ℕ
output_remaining c = left_of c.monthly_output_token_budget c.output_tokens_used_this_month

-- the dict of `effective_remaining`
pub record Remaining : Type 0 where
  pub key_monthly : Option ℕ
  pub user_monthly : Option ℕ
  pub daily : Option ℕ
  pub input : Option ℕ
  pub output : Option ℕ

unfoldable pub effective_remaining : AuthedCaller → Remaining
unfolding per_key_monthly_remaining user_aggregate_remaining daily_remaining input_remaining
    output_remaining
effective_remaining c = record {
  key_monthly = per_key_monthly_remaining c;
  user_monthly = user_aggregate_remaining c;
  daily = daily_remaining c;
  input = input_remaining c;
  output = output_remaining c;
}

unfoldable pub is_unlimited : AuthedCaller → Bool
unfolding effective_remaining
is_unlimited c =
    let r = effective_remaining c in
    not (is_some r.key_monthly)
    && (not (is_some r.user_monthly)
        && (not (is_some r.daily) && (not (is_some r.input) && not (is_some r.output))))
