-- ===== src/ErrorKinds.antt =====
-- base_model_wrapper/src/wrapper/error_kinds.py: the taxonomy of `api_requests.error_kind`.
use acs_base_model_api.Base.{
  String, Bool, true, false, Option, none, some, List, [], ◌∷◌, ◌≡◌, refl, string_eq,
}
use acs_base_model_api.Base.Lists.{contains}

pub data ErrorKind : Type 0 where
  cold_boot : ErrorKind
  budget_exceeded : ErrorKind
  activation_quota_exceeded : ErrorKind
  harvest_quota_exceeded : ErrorKind
  harvest_concurrency_exceeded : ErrorKind
  harvest_capacity_exceeded : ErrorKind
  queue_full : ErrorKind
  rate_limited : ErrorKind
  circuit_open : ErrorKind
  upstream_unreachable : ErrorKind
  harvest_unavailable : ErrorKind
  vllm_oom : ErrorKind
  vllm_engine_dead : ErrorKind
  upstream_5xx : ErrorKind
  upstream_error : ErrorKind
  vllm_context_length : ErrorKind
  vllm_invalid_request : ErrorKind
  upstream_4xx : ErrorKind
  invalid_request : ErrorKind
  activations_unsupported : ErrorKind
  activation_prompt_too_long : ErrorKind
  harvest_unsupported : ErrorKind
  harvest_job_not_found : ErrorKind
  harvest_not_cancellable : ErrorKind
  request_too_large : ErrorKind
  bad_json : ErrorKind
  context_length_exceeded : ErrorKind
  chat_completions_unsupported : ErrorKind
  invalid_api_key : ErrorKind
  account_not_approved : ErrorKind
  account_suspended : ErrorKind
  internal_error : ErrorKind

-- `k in CLIENT_ISH_UPSTREAM_KINDS`, where k may be None
unfoldable pub is_client_ish : Option ErrorKind → Bool
is_client_ish (some ErrorKind.vllm_context_length) = true
is_client_ish (some ErrorKind.vllm_invalid_request) = true
is_client_ish _ = false

-- the member's string
unfoldable pub value : ErrorKind → String
value ErrorKind.cold_boot = "cold_boot"
value ErrorKind.budget_exceeded = "budget_exceeded"
value ErrorKind.activation_quota_exceeded = "activation_quota_exceeded"
value ErrorKind.harvest_quota_exceeded = "harvest_quota_exceeded"
value ErrorKind.harvest_concurrency_exceeded = "harvest_concurrency_exceeded"
value ErrorKind.harvest_capacity_exceeded = "harvest_capacity_exceeded"
value ErrorKind.queue_full = "queue_full"
value ErrorKind.rate_limited = "rate_limited"
value ErrorKind.circuit_open = "circuit_open"
value ErrorKind.upstream_unreachable = "upstream_unreachable"
value ErrorKind.harvest_unavailable = "harvest_unavailable"
value ErrorKind.vllm_oom = "vllm_oom"
value ErrorKind.vllm_engine_dead = "vllm_engine_dead"
value ErrorKind.upstream_5xx = "upstream_5xx"
value ErrorKind.upstream_error = "upstream_error"
value ErrorKind.vllm_context_length = "vllm_context_length"
value ErrorKind.vllm_invalid_request = "vllm_invalid_request"
value ErrorKind.upstream_4xx = "upstream_4xx"
value ErrorKind.invalid_request = "invalid_request"
value ErrorKind.activations_unsupported = "activations_unsupported"
value ErrorKind.activation_prompt_too_long = "activation_prompt_too_long"
value ErrorKind.harvest_unsupported = "harvest_unsupported"
value ErrorKind.harvest_job_not_found = "harvest_job_not_found"
value ErrorKind.harvest_not_cancellable = "harvest_not_cancellable"
value ErrorKind.request_too_large = "request_too_large"
value ErrorKind.bad_json = "bad_json"
value ErrorKind.context_length_exceeded = "context_length_exceeded"
value ErrorKind.chat_completions_unsupported = "chat_completions_unsupported"
value ErrorKind.invalid_api_key = "invalid_api_key"
value ErrorKind.account_not_approved = "account_not_approved"
value ErrorKind.account_suspended = "account_suspended"
value ErrorKind.internal_error = "internal_error"

unfoldable pub known_error_kinds : List String
known_error_kinds =
    "cold_boot" ∷ "budget_exceeded" ∷ "activation_quota_exceeded" ∷ "harvest_quota_exceeded"
    ∷ "harvest_concurrency_exceeded" ∷ "harvest_capacity_exceeded" ∷ "queue_full" ∷ "rate_limited"
    ∷ "circuit_open" ∷ "upstream_unreachable" ∷ "harvest_unavailable" ∷ "vllm_oom"
    ∷ "vllm_engine_dead" ∷ "upstream_5xx" ∷ "upstream_error" ∷ "vllm_context_length"
    ∷ "vllm_invalid_request" ∷ "upstream_4xx" ∷ "invalid_request" ∷ "activations_unsupported"
    ∷ "activation_prompt_too_long" ∷ "harvest_unsupported" ∷ "harvest_job_not_found"
    ∷ "harvest_not_cancellable" ∷ "request_too_large" ∷ "bad_json" ∷ "context_length_exceeded"
    ∷ "chat_completions_unsupported" ∷ "invalid_api_key" ∷ "account_not_approved"
    ∷ "account_suspended" ∷ "internal_error" ∷ []

unfoldable pub is_known : Option String → Bool
unfolding known_error_kinds
is_known none = true
is_known (some kind) = contains kind known_error_kinds

-- A request may be recorded with any kind of the taxonomy: no kind's value is unknown.
pub is_known-value : (k : ErrorKind) → is_known (some (value k)) ≡ true
unfolding is_known value known_error_kinds
is_known-value ErrorKind.cold_boot = refl
is_known-value ErrorKind.budget_exceeded = refl
is_known-value ErrorKind.activation_quota_exceeded = refl
is_known-value ErrorKind.harvest_quota_exceeded = refl
is_known-value ErrorKind.harvest_concurrency_exceeded = refl
is_known-value ErrorKind.harvest_capacity_exceeded = refl
is_known-value ErrorKind.queue_full = refl
is_known-value ErrorKind.rate_limited = refl
is_known-value ErrorKind.circuit_open = refl
is_known-value ErrorKind.upstream_unreachable = refl
is_known-value ErrorKind.harvest_unavailable = refl
is_known-value ErrorKind.vllm_oom = refl
is_known-value ErrorKind.vllm_engine_dead = refl
is_known-value ErrorKind.upstream_5xx = refl
is_known-value ErrorKind.upstream_error = refl
is_known-value ErrorKind.vllm_context_length = refl
is_known-value ErrorKind.vllm_invalid_request = refl
is_known-value ErrorKind.upstream_4xx = refl
is_known-value ErrorKind.invalid_request = refl
is_known-value ErrorKind.activations_unsupported = refl
is_known-value ErrorKind.activation_prompt_too_long = refl
is_known-value ErrorKind.harvest_unsupported = refl
is_known-value ErrorKind.harvest_job_not_found = refl
is_known-value ErrorKind.harvest_not_cancellable = refl
is_known-value ErrorKind.request_too_large = refl
is_known-value ErrorKind.bad_json = refl
is_known-value ErrorKind.context_length_exceeded = refl
is_known-value ErrorKind.chat_completions_unsupported = refl
is_known-value ErrorKind.invalid_api_key = refl
is_known-value ErrorKind.account_not_approved = refl
is_known-value ErrorKind.account_suspended = refl
is_known-value ErrorKind.internal_error = refl
