-- ===== src/Budget/Ledger.antt =====
-- Committed usage is what the next request reads back (auth.py).
use acs_base_model_api.Base.{
  ℕ, ◌+◌, ◌≡◌, ◌≢◌, Bool, some, List, [], ◌∷◌, arith, nat_eq, if◌then◌else◌,
}
use acs_base_model_api.Budget.Store.{
  Date, current_period_start, current_day_start, UsageRow, Db, find, is_row, is_owned_by, owner_of,
}
use acs_base_model_api.Budget.Usage.{
  UsageState, prompt_of, completion_of, sum_prompt, sum_completion, load_usage_state, upsert,
  commit_usage,
}

module _ (key : ℕ) (start : Date) (p c : ℕ) where
  find-upsert :
      (rows : List UsageRow)
      → (prompt_of (find (is_row key start) (upsert key start p c rows))
          ≡ prompt_of (find (is_row key start) rows) + p)
        × (completion_of (find (is_row key start) (upsert key start p c rows))
            ≡ completion_of (find (is_row key start) rows) + c)
  unfolding upsert
  find-upsert [] = ground arith
  find-upsert (r ∷ rs) = ground (arith, find-upsert rs)

  -- rows of other keys are not touched
  find-upsert_other :
      (other : ℕ) (day : Date) (rows : List UsageRow)
      → other ≢ key
      → find (is_row other day) (upsert key start p c rows) ≡ find (is_row other day) rows
  unfolding upsert
  find-upsert_other other day [] h = ground arith
  find-upsert_other other day (r ∷ rs) h = ground (arith, find-upsert_other other day rs h)

  sum_prompt-upsert :
      (owned : ℕ → Bool) (rows : List UsageRow)
      → sum_prompt owned start (upsert key start p c rows)
        ≡ sum_prompt owned start rows + (if owned key then p else 0)
  unfolding upsert sum_prompt
  sum_prompt-upsert owned [] = ground arith
  sum_prompt-upsert owned (r ∷ rs) = ground (arith, sum_prompt-upsert owned rs)

  sum_completion-upsert :
      (owned : ℕ → Bool) (rows : List UsageRow)
      → sum_completion owned start (upsert key start p c rows)
        ≡ sum_completion owned start rows + (if owned key then c else 0)
  unfolding upsert sum_completion
  sum_completion-upsert owned [] = ground arith
  sum_completion-upsert owned (r ∷ rs) = ground (arith, sum_completion-upsert owned rs)

-- the usage of a caller after `p` prompt and `c` completion tokens of the caller's own key
abbrev pub spent : ℕ → ℕ → UsageState → UsageState
spent p c u = record {
  tokens_used_this_month = u.tokens_used_this_month + (p + c);
  input_tokens_used_this_month = u.input_tokens_used_this_month + p;
  output_tokens_used_this_month = u.output_tokens_used_this_month + c;
  tokens_used_today = u.tokens_used_today + (p + c);
  user_tokens_used_this_month = u.user_tokens_used_this_month + (p + c);
}

-- What a request commits is read back on the same day: the key's monthly, input, output and daily
-- usage and its owner's aggregate grow by exactly the committed tokens.
pub load-commit_self :
    (db : Db) (now : Date) (key user p c : ℕ)
    → owner_of db.keys key ≡ some user
    → load_usage_state (commit_usage db now key p c) now key user
      ≡ spent p c (load_usage_state db now key user)
unfolding load_usage_state commit_usage
load-commit_self db now key user p c own = ground (
  arith,
  find-upsert key (current_period_start now) p c db.monthly,
  find-upsert key (current_day_start now) p c db.daily,
  sum_prompt-upsert key (current_period_start now) p c (is_owned_by db.keys user) db.monthly,
  sum_completion-upsert key (current_period_start now) p c (is_owned_by db.keys user) db.monthly,
)

-- A commit for one key changes nothing that a key of another owner reads.
pub load-commit_other :
    (db : Db) (now : Date) (key other owner user p c : ℕ)
    → other ≢ key
    → owner_of db.keys key ≡ some owner
    → owner ≢ user
    → load_usage_state (commit_usage db now key p c) now other user
      ≡ load_usage_state db now other user
unfolding load_usage_state commit_usage
load-commit_other db now key other owner user p c ne own apart = ground (
  arith,
  find-upsert_other key (current_period_start now) p c other (current_period_start now) db.monthly
      ne,
  find-upsert_other key (current_day_start now) p c other (current_day_start now) db.daily ne,
  sum_prompt-upsert key (current_period_start now) p c (is_owned_by db.keys user) db.monthly,
  sum_completion-upsert key (current_period_start now) p c (is_owned_by db.keys user) db.monthly,
)
