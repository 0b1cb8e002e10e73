-- ===== src/Budget/Spend.antt =====
-- What the pre-flight guarantees: it admits exactly the requests that fit, and a request that it
-- admits cannot spend more than any budget.
use acs_base_model_api.Base.{
  ℕ, ◌≤◌, ◌<◌, ◌+◌, ◌≡◌, ◌≢◌, ◌↔◌, Option, none, some, List, [], ◌∷◌, arith,
}
use acs_base_model_api.Completions.Prompt.{Counter, count_prompt_tokens}
use acs_base_model_api.Budget.Caller.{AuthedCaller, Remaining, effective_remaining}
use acs_base_model_api.Budget.Preflight.{
  Body, Clamped, Preflight, passed, rejected, clamp_to, output_headrooms, budget_preflight_clamp,
}

-- something is left, and a prompt of `n` tokens leaves room for output
abbrev pub Leaves : ℕ → Option ℕ → Type 0
Leaves n none = Unit
Leaves n (some rem) = n < rem

-- something is left, and `n` tokens are at most that
abbrev pub Covers : ℕ → Option ℕ → Type 0
Covers n none = Unit
Covers n (some rem) = (0 < rem) × (n ≤ rem)

-- A prompt of `n` tokens fits what remains in every dimension.
pub record Fits (n : ℕ) (r : Remaining) : Type 0 where
  pub key_monthly : Leaves n r.key_monthly
  pub user_monthly : Leaves n r.user_monthly
  pub daily : Leaves n r.daily
  pub input : Covers n r.input
  pub output : Covers 0 r.output

abbrev pub Passes : Preflight → Type 0
Passes (rejected e) = ⊥
Passes (passed b m) = Unit

clamp_to-Passes : (hs : List ℕ) (body : Body) → Passes (clamp_to hs body)
unfolding clamp_to
clamp_to-Passes [] body = tt
clamp_to-Passes (h ∷ hs) body = ground arith

-- The pre-flight passes a request exactly when its prompt fits every configured budget: no
-- dimension is exhausted, the prompt is within the input budget, and it leaves room for output in
-- each budget that counts both.
pub budget_preflight_clamp_iff :
    (caller : AuthedCaller) (count : Counter) (body : Body)
    → Passes (budget_preflight_clamp caller count body)
      ↔ Fits (count_prompt_tokens body.prompt count) (effective_remaining caller)
unfolding budget_preflight_clamp
budget_preflight_clamp_iff caller count body = (
  λ h. ground (arith),
  λ h. ground (
    arith,
    clamp_to-Passes
        (output_headrooms (count_prompt_tokens body.prompt count) (effective_remaining caller))
        body,
  ),
)

-- a request for `n` prompt tokens and at most `m` more stays within what remains; `none` asks for
-- an unbounded output, which no limit allows
abbrev pub Within : ℕ → Option ℕ → Option ℕ → Type 0
Within n m none = Unit
Within n none (some rem) = ⊥
Within n (some m) (some rem) = n + m ≤ rem

abbrev pub LeOption : Option ℕ → Option ℕ → Type 0
LeOption m none = Unit
LeOption none (some a) = ⊥
LeOption (some m) (some a) = m ≤ a

-- What an admitted body allows: the prompt is the caller's, prompt and output together stay
-- within each budget that counts both, the output within the output budget, the prompt within the
-- input budget, and the output limit is no larger than the one asked for.
pub record Affords (n : ℕ) (r : Remaining) (asked allowed : Body) : Type 0 where
  pub same_prompt : allowed.prompt ≡ asked.prompt
  pub key_monthly : Within n allowed.max_tokens r.key_monthly
  pub user_monthly : Within n allowed.max_tokens r.user_monthly
  pub daily : Within n allowed.max_tokens r.daily
  pub output : Within 0 allowed.max_tokens r.output
  pub input : Within 0 (some n) r.input
  pub not_raised : LeOption allowed.max_tokens asked.max_tokens

clamp_to-Affords :
    (n : ℕ) (r : Remaining) (body : Body) {b : Body} {m : Option Clamped}
    → Fits n r
    → clamp_to (output_headrooms n r) body ≡ passed b m
    → Affords n r body b
unfolding clamp_to output_headrooms
clamp_to-Affords n r body h e = ground arith

-- Where the pre-flight passes a request, the body that it passes on cannot overspend: with the
-- counted prompt, every output up to its `max_tokens` stays within what remains in each
-- dimension; the prompt is unchanged and `max_tokens` is not raised.
pub passed-Affords :
    (caller : AuthedCaller) (count : Counter) (body : Body) {b : Body} {m : Option Clamped}
    → budget_preflight_clamp caller count body ≡ passed b m
    → Affords (count_prompt_tokens body.prompt count) (effective_remaining caller) body b
unfolding budget_preflight_clamp
passed-Affords caller count body {b} {m} e = ground (
  arith,
  budget_preflight_clamp_iff caller count body,
  clamp_to-Affords (count_prompt_tokens body.prompt count) (effective_remaining caller) body {b = b}
      {m = m},
)

-- what the report of a clamp has to say of the body asked for and the body sent on
abbrev pub Reports : Body → Body → Option Clamped → Type 0
Reports asked sent none = sent.max_tokens ≡ asked.max_tokens
Reports asked sent (some c) =
    (sent.max_tokens ≢ asked.max_tokens)
    × (c.requested ≡ asked.max_tokens)
    × (some c.applied ≡ sent.max_tokens)

-- A request that passes without a report keeps its `max_tokens`; with one, the pre-flight changed
-- `max_tokens`, and the report has the value asked for and the value applied.
pub clamp_reported :
    (caller : AuthedCaller) (count : Counter) (body : Body) {b : Body} {m : Option Clamped}
    → budget_preflight_clamp caller count body ≡ passed b m
    → Reports body b m
unfolding budget_preflight_clamp clamp_to
clamp_reported caller count body {m = none} e = ground arith
clamp_reported caller count body {m = some c} e = (ground arith, ground arith, ground arith)
