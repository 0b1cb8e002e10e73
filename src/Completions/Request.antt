-- ===== src/Completions/Request.antt =====
-- `CompletionsRequest` of base_model_wrapper/src/wrapper/schemas.py: the fields that its own
-- validators and the pre-flight checks read, and those validators in the order in which they run.
use acs_base_model_api.Base.{
  ℕ, ◌*◌, Bool, true, false, ◌&&◌, ◌||◌, not, Option, none, some, List, [], ◌∷◌, ltb, if◌then◌else◌,
  is_some,
}
use acs_base_model_api.Base.Json.{ℤ, Items}
use acs_base_model_api.Completions.Prompt.{Prompt, prompt_batch_size}

abbrev pub max_output_work_tokens : ℕ
max_output_work_tokens = 32000

-- `output_residual_stream`: a flag, or the layers to capture
pub data Capture : Type 0 where
  flag : Bool → Capture
  layers : List ℕ → Capture

-- Python's truth value of it: an empty list is false
abbrev pub captures : Capture → Bool
captures (flag b) = b
captures (layers []) = false
captures (layers (l ∷ ls)) = true

pub record CompletionsRequest : Type 0 where
  pub prompt : Prompt
  pub max_tokens : Option ℕ
  pub n : ℕ
  pub prompt_logprobs : Option ℤ
  pub stream : Bool
  pub output_residual_stream : Capture
  pub apply_steering_vectors : Option Items

unfoldable pub has_activation_params : CompletionsRequest → Bool
has_activation_params r = captures r.output_residual_stream || is_some r.apply_steering_vectors

-- what a validator raises
pub data Invalid : Type 0 where
  streamed_capture steered_batch steered_samples captured_batch captured_samples max_tokens_required
        too_much_work :
      Invalid

unfoldable pub no_stream_capture : CompletionsRequest → Option Invalid
no_stream_capture r =
    if r.stream && captures r.output_residual_stream then some streamed_capture else none

unfoldable pub steering_single_sequence_only : CompletionsRequest → Option Invalid
steering_single_sequence_only r =
    if not (is_some r.apply_steering_vectors)
    then none
    else if ltb 1 (prompt_batch_size r.prompt)
    then some steered_batch
    else if ltb 1 r.n
    then some steered_samples
    else none

unfoldable pub capture_single_sequence_only : CompletionsRequest → Option Invalid
capture_single_sequence_only r =
    if not (captures r.output_residual_stream)
    then none
    else if ltb 1 (prompt_batch_size r.prompt)
    then some captured_batch
    else if ltb 1 r.n
    then some captured_samples
    else none

unfoldable pub cap_output_work : CompletionsRequest → Option Invalid
cap_output_work r =
    let prompt_count = prompt_batch_size r.prompt in
    elim r.max_tokens [
      | none ↦ if ltb 1 prompt_count || ltb 1 r.n then some max_tokens_required else none
      | some m ↦
          if ltb max_output_work_tokens (prompt_count * r.n * m) then some too_much_work else none
    ]

abbrev pub or_else : Option Invalid → Option Invalid → Option Invalid
or_else (some e) next = some e
or_else none next = next

-- the model validators, the first failure first
unfoldable pub validate : CompletionsRequest → Option Invalid
validate r = or_else (no_stream_capture r) (
    or_else (steering_single_sequence_only r)
      (or_else (capture_single_sequence_only r) (cap_output_work r)))
