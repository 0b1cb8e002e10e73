-- ===== src/Completions/Limits.antt =====
-- What a completion request that passes its validators and the pre-flight checks is bounded by.
use native.Mathlib.Nat.{mul-div-le, mul-le-mul_left, le_trans, mul-le-mul_right}
use Prim.Native.Nat.{◌/◌}
use acs_base_model_api.Base.{
  ℕ, zero, suc, ◌+◌, ◌*◌, ◌≤◌, ◌≡◌, min, true, false, ◌&&◌, Option, none, some, arith, ltb,
  if◌then◌else◌, ◌↔◌, ◌⊎◌, inl, inr, Bool-cases, Option-cases,
}
use acs_base_model_api.Base.Lists.{length}
use acs_base_model_api.Completions.Prompt.{prompt_batch_size, count_prompt_tokens}
use acs_base_model_api.Completions.Request.{
  Capture, flag, layers, captures, CompletionsRequest, has_activation_params, no_stream_capture,
  steering_single_sequence_only, capture_single_sequence_only, cap_output_work, validate,
  max_output_work_tokens,
}
use acs_base_model_api.Completions.Checks.{
  Entry, within_model_len, CounterFactory, or_default, is_empty_text, check_sequence_length,
  capture_cap, generated_tokens, total_positions, check_activation_prompt_length,
  default_activation_max_prompt_tokens,
}

-- the output that a request may ask for: every sequence of it up to `max_tokens`
abbrev pub output_work : CompletionsRequest → ℕ → ℕ
output_work r m = prompt_batch_size r.prompt * r.n * m

abbrev pub Single : CompletionsRequest → Type 0
Single r = (prompt_batch_size r.prompt ≤ 1) × (r.n ≤ 1)

-- A valid request asks for one sequence, or for a bounded output; one with activation parameters
-- asks for one sequence in any case, and no capture is streamed.
pub validate-bounds :
    (r : CompletionsRequest)
    → validate r ≡ none
    → (((r.max_tokens ≡ none) × Single r)
        ⊎ ((m : ℕ) × (r.max_tokens ≡ some m) × (output_work r m ≤ max_output_work_tokens)))
      × ((has_activation_params r ≡ false) ⊎ Single r)
      × ((captures r.output_residual_stream ≡ false) ⊎ (r.stream ≡ false))
unfolding validate has_activation_params no_stream_capture steering_single_sequence_only
    capture_single_sequence_only cap_output_work
validate-bounds r v = (
  (elim (Option-cases r.max_tokens) [
    | inl e ↦ inl (e, ground (arith, v, e))
    | inr (m, e) ↦ inr (m, e, ground (arith, v, e))
  ]),
  (elim (Bool-cases (has_activation_params r)) [
    | inl a ↦ inr (ground (arith, v, a))
    | inr a ↦ inl a
  ]),
  (elim (Bool-cases r.stream) [ inl a ↦ inl (ground (arith, v, a)) | inr a ↦ inr a ]),
)

-- Where a model has a context limit, a request passes the context check exactly when its prompt is
-- the empty text, or the prompt and what is generated (at least one token) fit the limit.
pub check_sequence_length_iff :
    (factory : CounterFactory) (entry : Entry) (r : CompletionsRequest) (limit : ℕ)
    → entry.max_model_len ≡ some limit
    → (check_sequence_length factory entry r ≡ none) ↔ (
        (is_empty_text r.prompt ≡ true)
        ⊎ (count_prompt_tokens r.prompt (factory entry.tokenizer_repo) + or_default r.max_tokens 1
            ≤ limit))
unfolding check_sequence_length
check_sequence_length_iff factory entry r limit l =
    ((λ h. ground (arith, l, h)), (λ h. ground (arith, l, h)))

-- how many layers of a model a request captures
abbrev pub captured_layers : Capture → ℕ → ℕ
captured_layers (flag b) n_layers = n_layers
captured_layers (layers ls) n_layers = min (length ls) n_layers

within_model_len-le : (len : Option ℕ) (cap : ℕ) → within_model_len len cap ≤ cap
within_model_len-le none cap = omega arith
within_model_len-le (some zero) cap = omega arith
within_model_len-le (some (suc m)) cap = omega arith

-- a cap that is scaled up for `k` of `l` layers affords no more than the whole model's
scaled-bound :
    (len : Option ℕ) (k l base : ℕ) → k * within_model_len len ((base * l) / k) ≤ l * base
scaled-bound len k l base = omega (
  arith,
  le_trans (mul-le-mul_left k (within_model_len-le len ((base * l) / k))) (mul-div-le (base * l) k),
)

min-le : (k l : ℕ) → min k l ≤ l
min-le k l = omega arith

-- the cap for a number of layers, captured in full or as a subset of `k`
subset_cap : Option ℕ → ℕ → ℕ → ℕ → ℕ
subset_cap len k l base =
    if ltb 0 k && (ltb 0 l && ltb k l) then within_model_len len ((base * l) / k) else base

subset_cap-bound : (len : Option ℕ) (k l base : ℕ) → min k l * subset_cap len k l base ≤ l * base
unfolding subset_cap
subset_cap-bound len k l base = elim (Bool-cases (ltb 0 k && (ltb 0 l && ltb k l))) [
  | inl s ↦ let m : min k l ≡ k = ground (arith, s) in rw (s, m) (scaled-bound len k l base)
  | inr s ↦ rw s (mul-le-mul_right base (min-le k l))
]

capture_cap-bound :
    (entry : Entry) (c : Capture) (n_layers : ℕ)
    → entry.n_layers ≡ some n_layers
    → captured_layers c n_layers * capture_cap entry c
      ≤ n_layers
        * or_default entry.activation_max_prompt_tokens default_activation_max_prompt_tokens
unfolding capture_cap subset_cap
capture_cap-bound entry (flag b) n_layers e = omega arith
capture_cap-bound entry (layers ls) n_layers e = rw e (
    subset_cap-bound entry.max_model_len (length ls) n_layers
      (or_default entry.activation_max_prompt_tokens default_activation_max_prompt_tokens))

-- Where a model's layer count is known, a capture that passes the check covers no more residual
-- vectors, counted over layers and positions, than the position cap affords for all its layers.
pub accepted_capture-bound :
    (factory : CounterFactory) (entry : Entry) (r : CompletionsRequest) (effective : Option ℕ)
    (n_layers : ℕ)
    → entry.n_layers ≡ some n_layers
    → captures r.output_residual_stream ≡ true
    → check_activation_prompt_length factory entry r effective ≡ none
    → captured_layers r.output_residual_stream n_layers
        * total_positions
            (count_prompt_tokens r.prompt (factory entry.tokenizer_repo))
            (generated_tokens effective r.max_tokens)
      ≤ n_layers
        * or_default entry.activation_max_prompt_tokens default_activation_max_prompt_tokens
unfolding check_activation_prompt_length
accepted_capture-bound factory entry r effective n_layers e c ok =
    let fits : total_positions (count_prompt_tokens r.prompt (factory entry.tokenizer_repo))
          (generated_tokens effective r.max_tokens)
        ≤ capture_cap entry r.output_residual_stream =
      ground (arith, c, ok) in
    le_trans (mul-le-mul_left (captured_layers r.output_residual_stream n_layers) fits)
      (capture_cap-bound entry r.output_residual_stream n_layers e)
