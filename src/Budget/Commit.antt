-- ===== src/Budget/Commit.antt =====
-- From the pre-flight to the committed usage: an admitted request leaves every budget respected.
use acs_base_model_api.Base.{
  ℕ, ◌+◌, ◌*◌, ◌-◌, ◌≤◌, ◌<◌, ◌≡◌, refl, ◌≢◌, Option, none, some, arith, nat_eq,
}
use acs_base_model_api.Completions.Prompt.{Counter, count_prompt_tokens}
use acs_base_model_api.Budget.Store.{Date, ApiKey, User, Db, owner_of}
use acs_base_model_api.Budget.Caller.{AuthedCaller, effective_remaining}
use acs_base_model_api.Budget.Usage.{UsageState, load_usage_state, commit_usage}
use acs_base_model_api.Budget.Auth.{make_caller}
use acs_base_model_api.Budget.Preflight.{
  clamp_to, output_headrooms, Body, Clamped, Preflight, passed, rejected, budget_preflight_clamp,
}
use acs_base_model_api.Budget.Ledger.{spent, load-commit_self}
use acs_base_model_api.Budget.Spend.{
  Passes, Covers, Fits, Affords, LeOption, budget_preflight_clamp_iff, passed-Affords,
}

abbrev pub Cap : ℕ → Option ℕ → Type 0
Cap used none = Unit
Cap used (some budget) = used ≤ budget

-- No configured budget of the caller is overspent; a monthly key budget of 0 is no limit.
pub record WithinBudgets (c : AuthedCaller) : Type 0 where
  pub key_monthly : c.monthly_token_budget ≢ 0 → c.tokens_used_this_month ≤ c.monthly_token_budget
  pub user_monthly : Cap c.user_tokens_used_this_month c.monthly_token_budget_total
  pub daily : Cap c.tokens_used_today c.daily_token_budget
  pub input : Cap c.input_tokens_used_this_month c.monthly_input_token_budget
  pub output : Cap c.output_tokens_used_this_month c.monthly_output_token_budget

spend_one :
    (k : ApiKey) (u : User) (us : UsageState) (n p c : ℕ) (asked b : Body)
    → Fits n (effective_remaining (make_caller k u us))
    → Affords n (effective_remaining (make_caller k u us)) asked b
    → p ≤ n
    → LeOption (some c) b.max_tokens
    → WithinBudgets (make_caller k u (spent p c us))
unfolding make_caller effective_remaining
spend_one k u us n p c asked b fits aff hp hc = ground arith

-- A request that the pre-flight admits leaves no configured budget overspent: after its usage is
-- committed (a prompt of no more tokens than were counted, an output within the `max_tokens` of
-- the admitted body), the caller that the next authentication of the day builds for the same key
-- is within every budget.
pub admitted_stays_within :
    (db : Db) (now : Date) (k : ApiKey) (u : User) (count : Counter) (asked b : Body)
    {m : Option Clamped} (p c : ℕ)
    → owner_of db.keys k.id ≡ some k.user_id
    → budget_preflight_clamp (make_caller k u (load_usage_state db now k.id k.user_id)) count asked
      ≡ passed b m
    → p ≤ count_prompt_tokens asked.prompt count
    → LeOption (some c) b.max_tokens
    → WithinBudgets
        (make_caller k u (load_usage_state (commit_usage db now k.id p c) now k.id k.user_id))
admitted_stays_within db now k u count asked b {m} p c own e hp hc =
    let us = load_usage_state db now k.id k.user_id in
    let caller = make_caller k u us in
    rw (load-commit_self db now k.id k.user_id p c own) (
      spend_one k u us (count_prompt_tokens asked.prompt count) p c asked b
        ((budget_preflight_clamp_iff caller count asked).0 (rw e tt))
        (passed-Affords caller count asked {b = b} {m = m} e) hp hc)

double-le : (s x : ℕ) → 2 ≤ s → x + x ≤ s * x
double-le s x h = grind arith

whole_headroom :
    (caller : AuthedCaller) (count : Counter) (asked b : Body) {m : Option Clamped} (rem ask : ℕ)
    → let n = count_prompt_tokens asked.prompt count in
      let r = effective_remaining caller in
      r.key_monthly ≡ some rem
      → r.user_monthly ≡ none
      → r.daily ≡ none
      → r.output ≡ none
      → asked.max_tokens ≡ some ask
      → rem - n ≤ ask
      → budget_preflight_clamp caller count asked ≡ passed b m
      → b.max_tokens ≡ some (rem - n)
unfolding budget_preflight_clamp clamp_to output_headrooms
whole_headroom caller count asked b {m} rem ask hk hu hd ho ha hr e = ground arith

-- a key's monthly usage passes its budget when more than what remains is spent
more_than_left :
    (k : ApiKey) (u : User) (us : UsageState) (rem p c : ℕ)
    → (effective_remaining (make_caller k u us)).key_monthly ≡ some rem
    → 0 < rem
    → rem < p + c
    → ¬ WithinBudgets (make_caller k u (spent p c us))
unfolding make_caller effective_remaining
more_than_left k u us rem p c hk left over within = ground (arith, within.key_monthly)

-- the pre-flight passes `n` on
keeps_n :
    (caller : AuthedCaller) (count : Counter) (asked b : Body) {m : Option Clamped}
    → budget_preflight_clamp caller count asked ≡ passed b m
    → b.n ≡ asked.n
unfolding budget_preflight_clamp clamp_to
keeps_n caller count asked b e = ground arith

passed_with : (p : Preflight) → Passes p → (b : Body) × (m : Option Clamped) × (p ≡ passed b m)
passed_with (passed b m) h = (b, m, refl)
passed_with (rejected e) h = absurd h

-- A request for two completions or more (`n`), on a key that has a monthly budget and no other limit
-- that counts output, whose prompt fits and which asks for at least the headroom that is left after
-- the prompt: it is admitted with that whole headroom as the `max_tokens` of each completion and with
-- the same `n`, and if every completion uses it, the budget is overspent.
pub fan_out_overspends :
    (k : ApiKey) (u : User) (us : UsageState) (count : Counter) (asked : Body) (rem ask : ℕ)
    → let prompt = count_prompt_tokens asked.prompt count in
      let caller = make_caller k u us in
      let r = effective_remaining caller in
      r.key_monthly ≡ some rem
      → r.user_monthly ≡ none
      → r.daily ≡ none
      → r.output ≡ none
      → Covers prompt r.input
      → prompt < rem
      → asked.max_tokens ≡ some ask
      → rem - prompt ≤ ask
      → 2 ≤ asked.n
      → (b : Body) × (m : Option Clamped) × ((budget_preflight_clamp caller count asked
            ≡ passed b m)
          × ((b.max_tokens ≡ some (rem - prompt))
              × ((b.n ≡ asked.n)
                  × (¬ WithinBudgets (make_caller k u (spent prompt (b.n * (rem - prompt)) us))))))
fan_out_overspends k u us count asked rem ask hk hu hd ho hi fits ha hr several =
    let prompt = count_prompt_tokens asked.prompt count in
    let caller = make_caller k u us in
    let fit : Fits prompt (effective_remaining caller) = record {
      key_monthly = rw hk fits;
      user_monthly = rw hu tt;
      daily = rw hd tt;
      input = hi;
      output = rw ho tt;
    } in
    let (b, m, e) = passed_with _ ((budget_preflight_clamp_iff caller count asked).1 fit) in
    let same = keeps_n caller count asked b {m = m} e in
    (
      b,
      m,
      (
        e,
        (
          whole_headroom caller count asked b {m = m} rem ask hk hu hd ho ha hr e,
          (
            same,
            more_than_left k u us rem prompt (b.n * (rem - prompt)) hk (omega (arith, fits))
                (omega (arith, fits, double-le b.n (rem - prompt) (rw same several))),
          ),
        ),
      ),
    )
