-- ===== src/Proxy/Nonstream.antt =====
-- `post_nonstream` and `_modal_continuation_url` of proxy.py.
use acs_base_model_api.Base.{
  ℕ, zero, suc, ◌+◌, ◌-◌, Bool, not, ◌&&◌, ◌||◌, Option, none, some, List, [], ◌∷◌, ◌++◌, ltb, min,
  max, nat_eq, ◌==◌, if◌then◌else◌,
}
use acs_base_model_api.Base.Lists.{length}
use acs_base_model_api.Base.Text.{Text, codes}
use acs_base_model_api.Base.Json.{Json, str, obj, stop, field, text_eq}
use acs_base_model_api.Proxy.{
  BackendContext, Reason, deadline_exceeded, unexpected_redirect, non_completion_body,
  omitted_location, invalid_location, different_origin, UpstreamError, upstream_unreachable,
  cold_boot_error, json_value, json_error, undecodable, post, get, Request, Response, Hop,
  is_cold_boot_status, looks_like_completion, modal_continuation_max_redirects,
  public_request_timeout_ms,
}
use acs_base_model_api.Proxy.Retry.{
  Tried, answered, timed_out, raised, escaping, request_with_5xx_retry,
}

-- What the code uses of urllib.parse: the origin is `scheme` and `netloc` of `urlparse`, and
-- `none` stands for a ValueError.
pub record Urls : Type 0 where
  pub urljoin : Text → Text → Option Text
  pub origin : Text → Option (Text × Text)

pub data Followed : Type 0 where
  target_url : Text → Followed
  refused : Reason → Followed

unfoldable pub same_origin : Text × Text → Text × Text → Bool
same_origin (s, n) (t, m) = text_eq t s && text_eq m n

unfoldable pub check_origin : Urls → Text → Text → Followed
unfolding same_origin
check_origin urls current target = elim (urls.origin current) [
  | none ↦ refused invalid_location
  | some o ↦ elim (urls.origin target) [
    | none ↦ refused invalid_location
    | some p ↦ if same_origin o p then target_url target else refused different_origin
  ]
]

-- an absent Location and an empty one are refused alike
unfoldable pub modal_continuation_url : Urls → Option Text → Text → Followed
unfolding check_origin
modal_continuation_url urls none current = refused omitted_location
modal_continuation_url urls (some []) current = refused omitted_location
modal_continuation_url urls (some (c ∷ t)) current = elim (urls.urljoin current (c ∷ t)) [
  | none ↦ refused invalid_location
  | some target ↦ check_origin urls current target
]

-- the status, the body and the milliseconds, an exception of the proxy, or one that no clause catches
pub data Outcome : Type 0 where
  returned : ℕ → Json → ℕ → Outcome
  failed : UpstreamError → Outcome
  escaped : Outcome

-- `payload`: the parsed body, or the text under "raw"; `none` is an exception other than a
-- JSONDecodeError
unfoldable pub payload_of : Response → Option Json
payload_of r = elim r.json [
  | json_value j ↦ some j
  | json_error ↦ some (obj (field (codes "raw") (str r.text) stop))
  | undecodable ↦ none
]

-- a 200 is returned with a completion only
unfoldable pub payload_end : BackendContext → (t0 now status : ℕ) → Option Json → Outcome
unfolding looks_like_completion
payload_end ctx t0 now status none = escaped
payload_end ctx t0 now status (some payload) =
    if status == 200 && not (looks_like_completion payload)
    then failed (upstream_unreachable non_completion_body 1 ctx)
    else returned status payload (now - t0)

unfoldable pub deadline_error : BackendContext → (last_status redirects : ℕ) → UpstreamError
deadline_error ctx last_status redirects =
    if ctx.cold_hint || not (redirects == 0)
    then cold_boot_error last_status (max 1 redirects)
    else upstream_unreachable deadline_exceeded 1 ctx

unfoldable pub final_response : BackendContext → (t0 now : ℕ) → Response → Outcome
unfolding is_cold_boot_status payload_of payload_end
final_response ctx t0 now r =
    if is_cold_boot_status r.status_code
    then failed (upstream_unreachable (unexpected_redirect r.status_code) 1 ctx)
    else payload_end ctx t0 now r.status_code (payload_of r)

-- what the loop does next: end with an outcome, or GET another URL
pub data Next : Type 0 where
  finish : Outcome → Next
  follow : Text → Next

-- the body of `while True` after its request, where `redirects` counts the ones before
unfoldable pub next_step :
    Urls → BackendContext → (t0 last_status redirects : ℕ) → Text → Tried → Next
unfolding modal_continuation_url deadline_error final_response
next_step urls ctx t0 last_status redirects url timed_out =
    finish (failed (deadline_error ctx last_status redirects))
next_step urls ctx t0 last_status redirects url (raised e) = finish (failed e)
next_step urls ctx t0 last_status redirects url escaping = finish escaped
next_step urls ctx t0 last_status redirects url (answered r now) =
    if r.status_code == 303
    then (if ltb modal_continuation_max_redirects (redirects + 1)
        then finish (failed (cold_boot_error 303 (redirects + 1)))
        else elim (modal_continuation_url urls r.location url) [
          | refused reason ↦ finish (failed (upstream_unreachable reason 1 ctx))
          | target_url target ↦ follow target
        ])
    else finish (final_response ctx t0 now r)

-- what a call did: the requests it sent, in their order, and its outcome
pub record Run : Type 0 where
  pub sent : List Request
  pub outcome : Outcome

unfoldable pub prepend : List Request → Option Run → Option Run
prepend sent none = none
prepend sent (some run) = some (record { sent = sent ++ run.sent; outcome = run.outcome })

-- the end of a round, where `again` runs the next one on its request and the requests sent so far
unfoldable pub take_step : (Request → ℕ → Option Run) → ℕ → List Request → Next → Option Run
unfolding prepend
take_step again n sent (finish o) = some (record { sent = sent; outcome = o })
take_step again n sent (follow target) =
    prepend sent (again (record { method = get; url = target; body = none }) (n + length sent))

-- the call's fixed arguments
pub record Call : Type 0 where
  pub urls : Urls
  pub ctx : BackendContext
  pub hops : ℕ → Hop
  pub t0 : ℕ
  pub deadline : ℕ

-- The `while True` loop. Fuel bounds the rounds, and `none` means that it ran out.
unfoldable pub follow_loop :
    Call → (fuel last_status redirects : ℕ) → Request → (n : ℕ) → Option Run
unfolding take_step next_step request_with_5xx_retry
follow_loop call zero last_status redirects request n = none
follow_loop call (suc fuel) last_status redirects request n =
    let tried = request_with_5xx_retry call.ctx call.hops call.deadline request n in
    take_step (follow_loop call fuel 303 (redirects + 1)) n tried.0
      (next_step call.urls call.ctx call.t0 last_status redirects request.url tried.1)

-- a round for the POST and one for each continuation
abbrev pub follow_fuel : ℕ
follow_fuel = modal_continuation_max_redirects + 1

-- The clock starts at `t0`, and `timeout` is `timeout_s` in milliseconds.
abbrev pub nonstream_call : Urls → BackendContext → (ℕ → Hop) → (t0 timeout : ℕ) → Call
nonstream_call urls ctx hops t0 timeout = record {
  urls = urls;
  ctx = ctx;
  hops = hops;
  t0 = t0;
  deadline = t0 + min timeout public_request_timeout_ms;
}

abbrev pub first_post : Text → Json → Request
first_post url body = record { method = post; url = url; body = some body }

unfoldable pub post_nonstream :
    Urls → BackendContext → (ℕ → Hop) → (t0 timeout : ℕ) → Text → Json → Option Run
unfolding follow_loop
post_nonstream urls ctx hops t0 timeout url body =
    follow_loop (nonstream_call urls ctx hops t0 timeout) follow_fuel 0 0 (first_post url body) 0
