-- ===== src/Completions/Tests.antt =====
-- Concrete completion requests.
use acs_base_model_api.Base.{ℕ, ◌≤◌, ◌*◌, ◌≡◌, refl, false, none, some, [], ◌∷◌, ◌⊎◌}
use acs_base_model_api.Base.Text.{codes}
use acs_base_model_api.Base.Lists.{length}
use acs_base_model_api.Completions.Prompt.{tokens, prompt_batch_size, count_prompt_tokens}
use acs_base_model_api.Completions.Request.{
  layers, captures, CompletionsRequest, has_activation_params, validate, no_stream_capture,
  steering_single_sequence_only, capture_single_sequence_only, cap_output_work,
  max_output_work_tokens,
}
use acs_base_model_api.Completions.Checks.{
  Entry, CounterFactory, or_default, capture_cap, generated_tokens, total_positions,
  check_activation_prompt_length, default_activation_max_prompt_tokens,
}
use acs_base_model_api.Completions.Limits.{
  Single, output_work, captured_layers, validate-bounds, accepted_capture-bound,
}

abbrev request : CompletionsRequest
request = record {
  prompt = tokens (5 ∷ 6 ∷ 7 ∷ []);
  max_tokens = some 4;
  n = 1;
  prompt_logprobs = none;
  stream = false;
  output_residual_stream = layers (1 ∷ 3 ∷ []);
  apply_steering_vectors = none;
}

abbrev entry : Entry
entry = record {
  tokenizer_repo = codes "r";
  max_model_len = some 100;
  activation_max_prompt_tokens = some 3;
  n_layers = some 8;
}

abbrev factory : CounterFactory
factory repo t = length t

validate-bounds_example :
    (((request.max_tokens ≡ none) × Single request)
      ⊎ ((m : ℕ) × (request.max_tokens ≡ some m)
          × (output_work request m ≤ max_output_work_tokens)))
    × ((has_activation_params request ≡ false) ⊎ Single request)
    × ((captures request.output_residual_stream ≡ false) ⊎ (request.stream ≡ false))
unfolding validate no_stream_capture steering_single_sequence_only capture_single_sequence_only
    cap_output_work prompt_batch_size
validate-bounds_example = validate-bounds request refl

-- three prompt tokens and four generated ones: six positions of two layers, against three of eight
accepted_capture-bound_example :
    captured_layers request.output_residual_stream 8
      * total_positions
          (count_prompt_tokens request.prompt (factory entry.tokenizer_repo))
          (generated_tokens none request.max_tokens)
    ≤ 8 * or_default entry.activation_max_prompt_tokens default_activation_max_prompt_tokens
unfolding check_activation_prompt_length capture_cap count_prompt_tokens
accepted_capture-bound_example = accepted_capture-bound factory entry request none 8 refl refl refl
