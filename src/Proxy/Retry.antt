-- ===== src/Proxy/Retry.antt =====
-- `_request_with_5xx_retry` of proxy.py: one continuation hop, with its retries.
use acs_base_model_api.Base.{
  ℕ, zero, suc, ◌+◌, ◌-◌, not, Option, none, some, List, [], ◌∷◌, ltb, leb, if◌then◌else◌,
}
use acs_base_model_api.ErrorKinds.{is_client_ish}
use acs_base_model_api.Proxy.{
  BackendContext, network_failure, UpstreamError, upstream_unreachable, upstream_server_error,
  Request, Response, Answer, read_timeout, network_error, uncaught, replied, Hop,
  retry_5xx_max_retries,
}
use acs_base_model_api.Proxy.Classify.{classify_upstream_error_body, excerpt_body}

-- how a hop ends: a response and the clock, the TimeoutError, an exception of the proxy, or one that
-- no clause catches
pub data Tried : Type 0 where
  answered : Response → ℕ → Tried
  timed_out : Tried
  raised : UpstreamError → Tried
  escaping : Tried

-- the requests that were sent, and how the hop ended
abbrev pub Attempts : Type 0
Attempts = List Request × Tried

-- `continue` while retries are left, and the exception after the last one
unfoldable pub retry_or : Request → Option Attempts → UpstreamError → Attempts
retry_or request none e = (request ∷ [], raised e)
retry_or request (some (sent, end)) e = (request ∷ sent, end)

unfoldable pub response_end :
    BackendContext → ℕ → ℕ → Request → Option Attempts → Response → Attempts
unfolding retry_or classify_upstream_error_body is_client_ish
response_end ctx number now request rest r =
    let kind = classify_upstream_error_body r.text in
    let error = upstream_server_error r.status_code number (excerpt_body r.text 512) kind ctx in
    if ltb r.status_code 500
    then (request ∷ [], answered r now)
    else if not (is_client_ish kind)
    then retry_or request rest error
    else (request ∷ [], raised error)

-- `number` counts the attempts, from one
unfoldable pub answer_end : BackendContext → ℕ → ℕ → Request → Option Attempts → Answer → Attempts
unfolding retry_or response_end
answer_end ctx number now request rest read_timeout = (request ∷ [], timed_out)
answer_end ctx number now request rest (network_error reason) =
    retry_or request rest (upstream_unreachable (network_failure reason) number ctx)
answer_end ctx number now request rest uncaught = (request ∷ [], escaping)
answer_end ctx number now request rest (replied r) = response_end ctx number now request rest r

-- one round of the loop: the deadline is read before the request is sent
unfoldable pub attempt_once : BackendContext → ℕ → ℕ → Request → Option Attempts → Hop → Attempts
unfolding answer_end
attempt_once ctx deadline number request rest hop =
    if leb deadline hop.sent_at
    then ([], timed_out)
    else answer_end ctx number hop.answered_at request rest hop.answer

-- The loop with `left` retries, whose first request is the `n`-th that the call sends.
unfoldable pub attempts :
    BackendContext → (ℕ → Hop) → (deadline : ℕ) → Request → (left n : ℕ) → Attempts
unfolding attempt_once
attempts ctx hops deadline request zero n =
    attempt_once ctx deadline (retry_5xx_max_retries + 1) request none (hops n)
attempts ctx hops deadline request (suc left) n =
    attempt_once ctx deadline (retry_5xx_max_retries - left) request
      (some (attempts ctx hops deadline request left (suc n))) (hops n)

unfoldable pub request_with_5xx_retry :
    BackendContext → (ℕ → Hop) → (deadline : ℕ) → Request → (n : ℕ) → Attempts
unfolding attempts
request_with_5xx_retry ctx hops deadline request n =
    attempts ctx hops deadline request retry_5xx_max_retries n
