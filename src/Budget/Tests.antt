-- ===== src/Budget/Tests.antt =====
-- Authentication and budgets at concrete inputs.
use acs_base_model_api.Base.{
  ℕ, ◌*◌, ◌≡◌, ◌↔◌, refl, String, Option, none, some, [], ◌∷◌, arith, nat_eq, string_eq,
}
use acs_base_model_api.Base.Text.{Text, codes, strip_prefix, strip}
use acs_base_model_api.Completions.Prompt.{Counter, text, count_prompt_tokens}
use acs_base_model_api.Keys.{parse_prefix}
use acs_base_model_api.Budget.Store.{Date, current_period_start, ApiKey, User, UsageRow, Db}
use acs_base_model_api.Budget.Caller.{AuthedCaller, effective_remaining}
use acs_base_model_api.Budget.Usage.{
  UsageState, load_usage_state, sum_prompt, sum_completion, commit_usage,
}
use acs_base_model_api.Budget.Ledger.{spent, load-commit_self, load-commit_other}
use acs_base_model_api.Budget.Preflight.{
  Body, Clamped, passed, clamp_to, output_headrooms, budget_preflight_clamp,
}
use acs_base_model_api.Budget.Spend.{
  Passes, Fits, Affords, budget_preflight_clamp_iff, passed-Affords,
}
use acs_base_model_api.Budget.Commit.{WithinBudgets, admitted_stays_within, fan_out_overspends}
use acs_base_model_api.Budget.Auth.{
  ok, AuthState, Now, invalid_api_key, extract_bearer, find_row, make_caller, authenticate,
  authed_caller_for_key,
}
use acs_base_model_api.Budget.Access.{MayUse, authenticate_iff, refused_unchanged, cookie_iff}

abbrev today : Date
today = record { year = 2026; month = 9; day = 8 }

abbrev key : ApiKey
key = record {
  id = 1;
  user_id = 7;
  key_hash = "hash-1";
  key_prefix = "abcd1234";
  revoked_at = none;
  disabled_at = none;
  scopes = some ("completions" ∷ []);
  created_at = 5;
  last_used_at = none;
  monthly_token_budget = 100;
  daily_token_budget = none;
  monthly_input_token_budget = some 50;
  monthly_output_token_budget = none;
  monthly_activation_budget = 0;
  monthly_harvest_budget = 0;
}

abbrev owner : User
owner = record { id = 7; email = "a@b"; status = "approved"; monthly_token_budget_total = none }

abbrev row : UsageRow
row = record {
  key_id = 1;
  period_start = record { year = 2026; month = 9; day = 1 };
  tokens_prompt = 20;
  tokens_completion = 30;
  request_count = 4;
}

abbrev db : Db
db = record { keys = key ∷ []; users = owner ∷ []; monthly = row ∷ []; daily = [] }

abbrev usage : UsageState
usage = record {
  tokens_used_this_month = 50;
  input_tokens_used_this_month = 20;
  output_tokens_used_this_month = 30;
  tokens_used_today = 0;
  user_tokens_used_this_month = 50;
}

-- a tokenizer that finds ten tokens in every text
abbrev ten : Counter
ten t = 10

abbrev asked : Body
asked = record { n = 2; prompt = text (codes "hi"); max_tokens = some 64 }

abbrev allowed : Body
allowed = record { n = 2; prompt = text (codes "hi"); max_tokens = some 40 }

abbrev clamp : Option Clamped
clamp = some (record { requested = some 64; applied = 40 })

abbrev caller : AuthedCaller
caller = record {
  key_id = 1;
  key_prefix = "abcd1234";
  user_email = "a@b";
  user_id = 7;
  monthly_token_budget = 100;
  tokens_used_this_month = 50;
  daily_token_budget = none;
  tokens_used_today = 0;
  monthly_token_budget_total = none;
  user_tokens_used_this_month = 50;
  monthly_input_token_budget = some 50;
  monthly_output_token_budget = none;
  input_tokens_used_this_month = 20;
  output_tokens_used_this_month = 30;
  monthly_activation_budget = 0;
  monthly_harvest_budget = 0;
}

preflight_runs : budget_preflight_clamp caller ten asked ≡ passed allowed clamp
unfolding budget_preflight_clamp effective_remaining clamp_to output_headrooms count_prompt_tokens
preflight_runs = refl

budget_preflight_clamp_iff_example :
    Passes (budget_preflight_clamp caller ten asked)
    ↔ Fits (count_prompt_tokens asked.prompt ten) (effective_remaining caller)
budget_preflight_clamp_iff_example = budget_preflight_clamp_iff caller ten asked

passed-Affords_example :
    Affords (count_prompt_tokens asked.prompt ten) (effective_remaining caller) asked allowed
passed-Affords_example = passed-Affords caller ten asked {b = allowed} {m = clamp} preflight_runs

load-commit_self_example :
    load_usage_state (commit_usage db today 1 10 40) today 1 7
    ≡ spent 10 40 (load_usage_state db today 1 7)
load-commit_self_example = load-commit_self db today 1 7 10 40 refl

load-commit_other_example :
    load_usage_state (commit_usage db today 1 10 40) today 2 8 ≡ load_usage_state db today 2 8
load-commit_other_example =
    load-commit_other db today 1 2 7 8 10 40 (omega arith) refl (omega arith)

admitted_stays_within_example :
    WithinBudgets
      (make_caller key owner (load_usage_state (commit_usage db today 1 10 40) today 1 7))
unfolding budget_preflight_clamp effective_remaining clamp_to output_headrooms count_prompt_tokens
    make_caller load_usage_state sum_prompt sum_completion current_period_start
admitted_stays_within_example =
    admitted_stays_within db today key owner ten asked allowed {m = clamp} 10 40 refl refl
      (omega arith) (omega arith)

fan_out_overspends_example :
    (b : Body) × (m : Option Clamped) × ((budget_preflight_clamp
          (make_caller key owner usage)
          ten
          asked
        ≡ passed b m)
      × ((b.max_tokens ≡ some 40)
          × ((b.n ≡ 2) × (¬ WithinBudgets (make_caller key owner (spent 10 (b.n * 40) usage))))))
unfolding effective_remaining count_prompt_tokens make_caller
fan_out_overspends_example =
    fan_out_overspends key owner usage ten asked 50 64 refl refl refl refl
      (omega arith, omega arith) (omega arith) refl (omega arith) (omega arith)

-- a hash that is the same for every key
abbrev same_hash : Text → String
same_hash t = "hash-1"

abbrev other_hash : Text → String
other_hash t = "hash-2"

abbrev now : Now
now = record { monotonic = 900; wall = 1000; date = today }

abbrev state : AuthState
state = record { db = db; last_used_write = [] }

authenticate_iff_example :
    ((c : AuthedCaller) × ((authenticate same_hash now 300 "completions" (codes "Bearer k") state).0
        ≡ ok c))
    ↔ ((k : Text) × (a : ApiKey) × (u : User) × (extract_bearer (codes "Bearer k") ≡ some k)
        × (find_row db (same_hash k) ≡ some (a, u))
        × MayUse "completions" a u)
authenticate_iff_example = authenticate_iff same_hash now 300 "completions" (codes "Bearer k") state

refused_unchanged_example :
    (authenticate other_hash now 300 "completions" (codes "Bearer k") state).1 ≡ state
unfolding authenticate extract_bearer strip_prefix strip find_row parse_prefix
refused_unchanged_example =
    refused_unchanged other_hash now 300 "completions" (codes "Bearer k") state
      {e = record { status_code = 401; error_kind = invalid_api_key; key_prefix = none }} refl

cookie_iff_example :
    ((c : AuthedCaller) × (authed_caller_for_key db today 7 1 ≡ some c))
    ↔ (◌≡◌ {A = ℕ} 7 7 × MayUse "completions" key owner)
cookie_iff_example = cookie_iff db today key owner 7 refl refl ((λ e. refl), tt)
