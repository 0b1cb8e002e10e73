-- ===== src/Completions/Checks.antt =====
-- The pre-flight checks of base_model_wrapper/src/wrapper/services/completions.py that refuse a
-- prompt that is too long. A refusal is its error code with the numbers in its message; logging and
-- the response object are left out.
use Prim.Native.Nat.{◌/◌}
use acs_base_model_api.Base.{
  ℕ, zero, suc, ◌+◌, ◌-◌, ◌*◌, min, Bool, true, false, ◌&&◌, not, Option, none, some, [], ◌∷◌, leb,
  ltb, nat_eq, if◌then◌else◌,
}
use acs_base_model_api.Base.Json.{ℤ, negsuc}
use acs_base_model_api.Base.Lists.{length}
use acs_base_model_api.Base.Text.{Text}
use acs_base_model_api.Completions.Prompt.{
  Prompt, text, texts, tokens, token_batch, Counter, count_prompt_tokens,
}
use acs_base_model_api.Completions.Request.{
  Capture, flag, layers, captures, CompletionsRequest, has_activation_params,
}

abbrev pub full_vocab_max_prompt_tokens : ℕ
full_vocab_max_prompt_tokens = 1024

abbrev pub full_vocab_max_prompt_tokens_buffered : ℕ
full_vocab_max_prompt_tokens_buffered = 16

abbrev pub default_activation_max_prompt_tokens : ℕ
default_activation_max_prompt_tokens = 64

-- the fields of a registry entry that the checks read
pub record Entry : Type 0 where
  pub tokenizer_repo : Text
  pub max_model_len : Option ℕ
  pub activation_max_prompt_tokens : Option ℕ
  pub n_layers : Option ℕ

-- `get_token_counter` of a tokenizer, whose vocabulary is a download: a parameter
abbrev pub CounterFactory : Type 0
CounterFactory = Text → Counter

pub data Refusal : Type 0 where
  context_length_exceeded : ℕ → Option ℕ → ℕ → Refusal
  full_vocab_prompt_too_long : ℕ → ℕ → Refusal
  activation_prompt_too_long : ℕ → ℕ → ℕ → ℕ → Refusal

abbrev pub is_empty_text : Prompt → Bool
is_empty_text (text []) = true
is_empty_text (text (c ∷ t)) = false
is_empty_text (texts ts) = false
is_empty_text (tokens ids) = false
is_empty_text (token_batch ps) = false

-- Python's `a or d` on a number that may be missing
abbrev pub or_default : Option ℕ → ℕ → ℕ
or_default none d = d
or_default (some zero) d = d
or_default (some (suc m)) d = suc m

unfoldable pub check_sequence_length : CounterFactory → Entry → CompletionsRequest → Option Refusal
check_sequence_length factory entry parsed = elim entry.max_model_len [
  | none ↦ none
  | some limit ↦
      if is_empty_text parsed.prompt
      then none
      else let prompt_tokens = count_prompt_tokens parsed.prompt (factory entry.tokenizer_repo) in
        if leb (prompt_tokens + or_default parsed.max_tokens 1) limit
        then none
        else some (context_length_exceeded prompt_tokens parsed.max_tokens limit)
]

-- `prompt_logprobs == FULL_VOCAB_SENTINEL`, which is -1
abbrev pub is_full_vocab : Option ℤ → Bool
is_full_vocab (some (negsuc zero)) = true
is_full_vocab (some (negsuc (suc k))) = false
is_full_vocab (some (ℤ.pos k)) = false
is_full_vocab none = false

unfoldable pub check_full_vocab_prompt_logprobs :
    CounterFactory → Entry → CompletionsRequest → Option Refusal
check_full_vocab_prompt_logprobs factory entry parsed =
    if not (is_full_vocab parsed.prompt_logprobs)
    then none
    else let cap =
        if has_activation_params parsed
        then full_vocab_max_prompt_tokens_buffered
        else full_vocab_max_prompt_tokens in
      let prompt_tokens = count_prompt_tokens parsed.prompt (factory entry.tokenizer_repo) in
      if leb prompt_tokens cap then none else some (full_vocab_prompt_too_long cap prompt_tokens)

-- min(cap, entry.max_model_len) where the entry has one
abbrev pub within_model_len : Option ℕ → ℕ → ℕ
within_model_len none cap = cap
within_model_len (some zero) cap = cap
within_model_len (some (suc m)) cap = min cap (suc m)

-- the cap on captured positions: a subset of the layers affords more of them
unfoldable pub capture_cap : Entry → Capture → ℕ
capture_cap entry (flag b) =
    or_default entry.activation_max_prompt_tokens default_activation_max_prompt_tokens
capture_cap entry (layers ls) =
    let base_cap =
      or_default entry.activation_max_prompt_tokens default_activation_max_prompt_tokens in
    let subset = length ls in
    elim entry.n_layers [
      | none ↦ base_cap
      | some n_layers ↦
          if ltb 0 subset && (ltb 0 n_layers && ltb subset n_layers)
          then within_model_len entry.max_model_len ((base_cap * n_layers) / subset)
          else base_cap
    ]

-- `effective_max_tokens`, then `parsed.max_tokens`, then 1
abbrev pub generated_tokens : Option ℕ → Option ℕ → ℕ
generated_tokens (some m) requested = m
generated_tokens none (some m) = m
generated_tokens none none = 1

-- max(0, generated - 1) is the subtraction that stops at 0
abbrev pub total_positions : ℕ → ℕ → ℕ
total_positions prompt_tokens generated = prompt_tokens + (generated - 1)

unfoldable pub check_activation_prompt_length :
    CounterFactory → Entry → CompletionsRequest → Option ℕ → Option Refusal
check_activation_prompt_length factory entry parsed effective_max_tokens =
    if not (captures parsed.output_residual_stream)
    then none
    else let cap = capture_cap entry parsed.output_residual_stream in
      let prompt_tokens = count_prompt_tokens parsed.prompt (factory entry.tokenizer_repo) in
      let generated = generated_tokens effective_max_tokens parsed.max_tokens in
      let positions = total_positions prompt_tokens generated in
      if leb positions cap
      then none
      else some (activation_prompt_too_long cap positions prompt_tokens generated)
