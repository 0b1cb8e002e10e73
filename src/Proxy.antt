-- ===== src/Proxy.antt =====
-- base_model_wrapper/src/wrapper/proxy.py: the client of the upstream model servers. This file has
-- its data; the children have the classification of error bodies, the retries, the continuation
-- protocol of `post_nonstream` and the pass-through of large bodies. httpx, urllib and the clock
-- are parameters: a hop of the network is what the clock and httpx give for one request. Times are
-- in milliseconds.
pub mod Classify
pub mod Body
pub mod Continuation
pub mod Delivery
pub mod Nonstream
pub mod Passthrough
pub mod Promises
pub mod Retry
pub mod Returned
pub mod Rounds
pub mod Silence
pub mod Stream
pub mod Streaming
pub mod Termination
pub mod Tests
pub mod Trace
use acs_base_model_api.Base.{
  ℕ, ◌*◌, Bool, true, false, ◌&&◌, ◌||◌, Option, none, some, ltb, leb, if◌then◌else◌,
}
use acs_base_model_api.Base.Text.{Text, codes}
use acs_base_model_api.Base.Json.{Json, obj, Fields, stop, field, text_eq}
use acs_base_model_api.ErrorKinds.{ErrorKind}

abbrev pub modal_continuation_max_redirects : ℕ
modal_continuation_max_redirects = 20

abbrev pub public_request_timeout_ms : ℕ
public_request_timeout_ms = 14 * 60 * 1000

abbrev pub retry_5xx_max_retries : ℕ
retry_5xx_max_retries = 3

pub record BackendContext : Type 0 where
  pub model_id : Text
  pub gpu_shape : Text
  pub modal_app_name : Text
  pub cold_hint : Bool

-- what an UpstreamUnreachable gives as its reason
pub data Reason : Type 0 where
  deadline_exceeded : Reason
  unexpected_redirect : ℕ → Reason
  non_completion_body : Reason
  omitted_location : Reason
  invalid_location : Reason
  different_origin : Reason
  network_failure : Text → Reason
  body_failure : Text → Reason
  empty_body : Reason

pub data UpstreamError : Type 0 where
  upstream_unreachable : (reason : Reason) (attempts : ℕ) (ctx : BackendContext) → UpstreamError
  upstream_server_error :
      (upstream_status attempts : ℕ) (body_excerpt : Text) (upstream_kind : Option ErrorKind)
      (ctx : BackendContext)
      → UpstreamError
  cold_boot_error : (upstream_status attempts : ℕ) → UpstreamError

pub data Method : Type 0 where
  post : Method
  get : Method

pub record Request : Type 0 where
  pub method : Method
  pub url : Text
  pub body : Option Json

-- how `r.json()` ends: a value, a JSONDecodeError, or another exception, as of bytes that are no text
pub data JsonBody : Type 0 where
  json_value : Json → JsonBody
  json_error : JsonBody
  undecodable : JsonBody

-- an httpx.Response that was read whole
pub record Response : Type 0 where
  pub status_code : ℕ
  pub location : Option Text
  pub text : Text
  pub json : JsonBody

-- how `client.request` ends: a ReadTimeout, another failure of the network that is caught, an
-- exception that no clause catches, or a response
pub data Answer : Type 0 where
  read_timeout : Answer
  network_error : Text → Answer
  uncaught : Answer
  replied : Response → Answer

-- The environment of one request: the clock before it is sent and after it is answered.
pub record Hop : Type 0 where
  pub sent_at : ℕ
  pub answered_at : ℕ
  pub answer : Answer

-- `300 <= code < 400`
unfoldable pub is_cold_boot_status : ℕ → Bool
is_cold_boot_status code = leb 300 code && ltb code 400

unfoldable pub has_key : Text → Fields → Bool
has_key k stop = false
has_key k (field l v rest) = text_eq l k || has_key k rest

unfoldable pub looks_like_completion : Json → Bool
unfolding has_key
looks_like_completion (obj fs) = has_key (codes "choices") fs || has_key (codes "usage") fs
looks_like_completion _ = false
