-- ===== src/Budget/Preflight.antt =====
-- `_budget_preflight_clamp` of routes/api.py and `clamp_max_tokens` of proxy.py.
use acs_base_model_api.Base.{
  ℕ, ◌-◌, min, Bool, false, ◌||◌, Option, none, some, is_some, List, [], ◌∷◌, leb, ltb, nat_eq,
  ◌==◌, if◌then◌else◌,
}
use acs_base_model_api.Completions.Prompt.{Prompt, Counter, count_prompt_tokens}
use acs_base_model_api.Budget.Caller.{AuthedCaller, Remaining, effective_remaining}

-- the fields of the request body that the pre-flight reads and writes, and `n`, the completions that
-- are asked for, which it passes on
pub record Body : Type 0 where
  pub n : ℕ
  pub prompt : Prompt
  pub max_tokens : Option ℕ

-- the original and the clamped value, and the body after the call
unfoldable pub clamp_max_tokens : Body → Option ℕ → Option ℕ × Option ℕ × Body
clamp_max_tokens body none = (body.max_tokens, body.max_tokens, body)
clamp_max_tokens body (some remaining) = elim body.max_tokens [
  | none ↦ (none, some remaining, record body { max_tokens = some remaining })
  | some original ↦
      if ltb remaining original
      then (some original, some remaining, record body { max_tokens = some remaining })
      else (some original, some original, body)
]

pub data Dim : Type 0 where
  key_monthly user_monthly daily input output : Dim

-- which of the messages a 429 carries
pub data BudgetError : Type 0 where
  exhausted : Dim → BudgetError
  prompt_over_input : BudgetError
  prompt_alone : Dim → BudgetError

pub record Clamped : Type 0 where
  pub requested : Option ℕ
  pub applied : ℕ

pub data Preflight : Type 0 where
  rejected : BudgetError → Preflight
  passed : Body → Option Clamped → Preflight

abbrev pub is_exhausted : Option ℕ → Bool
is_exhausted none = false
is_exhausted (some rem) = leb rem 0

-- the loop that rejects on the first exhausted dimension, in the order of the dict
unfoldable pub first_exhausted : Remaining → Option Dim
first_exhausted r =
    if is_exhausted r.key_monthly
    then some key_monthly
    else if is_exhausted r.user_monthly
    then some user_monthly
    else if is_exhausted r.daily
    then some daily
    else if is_exhausted r.input
    then some input
    else if is_exhausted r.output
    then some output
    else none

-- the `prompt_tokens_est > remaining` test, where there is a limit
abbrev pub is_over : ℕ → Option ℕ → Bool
is_over n none = false
is_over n (some rem) = ltb rem n

-- `rem - prompt_tokens_est <= 0`, where there is a limit
abbrev pub has_no_headroom : ℕ → Option ℕ → Bool
has_no_headroom n none = false
has_no_headroom n (some rem) = leb rem n

abbrev pub add_headroom : Option ℕ → List ℕ → List ℕ
add_headroom none hs = hs
add_headroom (some h) hs = h ∷ hs

abbrev pub headroom : ℕ → Option ℕ → Option ℕ
headroom n none = none
headroom n (some rem) = some (rem - n)

unfoldable pub output_headrooms : ℕ → Remaining → List ℕ
output_headrooms n r = add_headroom (headroom n r.key_monthly) (
    add_headroom (headroom n r.user_monthly)
      (add_headroom (headroom n r.daily) (add_headroom r.output [])))

-- Python's `min` of a list that is not empty
abbrev pub min_of : ℕ → List ℕ → ℕ
min_of h [] = h
min_of h (x ∷ xs) = min_of (min h x) xs

unfoldable pub clamp_metadata : Option ℕ → Option ℕ → Option Clamped
clamp_metadata original none = none
clamp_metadata none (some clamped) = some (record { requested = none; applied = clamped })
clamp_metadata (some original) (some clamped) =
    if original == clamped
    then none
    else some (record { requested = some original; applied = clamped })

unfoldable pub clamp_to : List ℕ → Body → Preflight
unfolding clamp_max_tokens clamp_metadata
clamp_to [] body = passed body none
clamp_to (h ∷ hs) body =
    let (original, clamped, body') = clamp_max_tokens body (some (min_of h hs)) in
    passed body' (clamp_metadata original clamped)

abbrev pub has_any_limit : Remaining → Bool
has_any_limit r =
    is_some r.key_monthly
    || (is_some r.user_monthly || (is_some r.daily || (is_some r.input || is_some r.output)))

-- the checks that need the prompt's token count
unfoldable pub fit_prompt : ℕ → Remaining → Body → Preflight
fit_prompt n r body =
    if is_over n r.input
    then rejected prompt_over_input
    else if has_no_headroom n r.key_monthly
    then rejected (prompt_alone key_monthly)
    else if has_no_headroom n r.user_monthly
    then rejected (prompt_alone user_monthly)
    else if has_no_headroom n r.daily
    then rejected (prompt_alone daily)
    else clamp_to (output_headrooms n r) body

unfoldable pub budget_preflight_clamp : AuthedCaller → Counter → Body → Preflight
unfolding first_exhausted fit_prompt
budget_preflight_clamp caller count body =
    let r = effective_remaining caller in
    if has_any_limit r
    then elim (first_exhausted r) [
      | some dim ↦ rejected (exhausted dim)
      | none ↦ fit_prompt (count_prompt_tokens body.prompt count) r body
    ]
    else passed body none
