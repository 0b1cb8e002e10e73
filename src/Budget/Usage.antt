-- ===== src/Budget/Usage.antt =====
-- `_load_usage_state` and `commit_usage` of auth.py over the usage rows.
use acs_base_model_api.Base.{
  ℕ, ◌+◌, Bool, ◌&&◌, Option, none, some, List, [], ◌∷◌, nat_eq, if◌then◌else◌,
}
use acs_base_model_api.Budget.Store.{
  Date, same_date, current_period_start, current_day_start, UsageRow, Db, find, is_row, is_owned_by,
}

pub record UsageState : Type 0 where
  pub tokens_used_this_month : ℕ
  pub input_tokens_used_this_month : ℕ
  pub output_tokens_used_this_month : ℕ
  pub tokens_used_today : ℕ
  pub user_tokens_used_this_month : ℕ

abbrev pub prompt_of : Option UsageRow → ℕ
prompt_of none = 0
prompt_of (some r) = r.tokens_prompt

abbrev pub completion_of : Option UsageRow → ℕ
completion_of none = 0
completion_of (some r) = r.tokens_completion

-- The sums of the aggregate query: the rows of one period whose key passes `owned`.
unfoldable pub sum_prompt : (ℕ → Bool) → Date → List UsageRow → ℕ
sum_prompt owned start [] = 0
sum_prompt owned start (r ∷ rs) =
    if owned r.key_id && same_date r.period_start start
    then r.tokens_prompt + sum_prompt owned start rs
    else sum_prompt owned start rs

unfoldable pub sum_completion : (ℕ → Bool) → Date → List UsageRow → ℕ
sum_completion owned start [] = 0
sum_completion owned start (r ∷ rs) =
    if owned r.key_id && same_date r.period_start start
    then r.tokens_completion + sum_completion owned start rs
    else sum_completion owned start rs

unfoldable pub load_usage_state : Db → Date → ℕ → ℕ → UsageState
load_usage_state db now key_id user_id =
    let period_start = current_period_start now in
    let monthly_row = find (is_row key_id period_start) db.monthly in
    let daily_row = find (is_row key_id (current_day_start now)) db.daily in
    let owned : ℕ → Bool = is_owned_by db.keys user_id in
    record {
      tokens_used_this_month = prompt_of monthly_row + completion_of monthly_row;
      input_tokens_used_this_month = prompt_of monthly_row;
      output_tokens_used_this_month = completion_of monthly_row;
      tokens_used_today = prompt_of daily_row + completion_of daily_row;
      user_tokens_used_this_month =
          sum_prompt owned period_start db.monthly + sum_completion owned period_start db.monthly;
    }

-- INSERT … ON CONFLICT DO UPDATE on the key (key_id, period_start)
unfoldable pub upsert : ℕ → Date → ℕ → ℕ → List UsageRow → List UsageRow
upsert key_id start p c [] =
    record {
      key_id = key_id;
      period_start = start;
      tokens_prompt = p;
      tokens_completion = c;
      request_count = 1;
    }
    ∷ []
upsert key_id start p c (r ∷ rs) =
    if is_row key_id start r
    then record r {
      tokens_prompt = r.tokens_prompt + p;
      tokens_completion = r.tokens_completion + c;
      request_count = r.request_count + 1;
    }
      ∷ rs
    else r ∷ upsert key_id start p c rs

unfoldable pub commit_usage : Db → Date → ℕ → ℕ → ℕ → Db
commit_usage db now key_id p c = record db {
  monthly = upsert key_id (current_period_start now) p c db.monthly;
  daily = upsert key_id (current_day_start now) p c db.daily;
}
