-- ===== src/Proxy/Stream.antt =====
-- `stream_post` of proxy.py: the SSE stream of a completion. The usage that it reads from a chunk is
-- left out of what it yields.
use acs_base_model_api.Base.{
  ℕ, zero, suc, ◌+◌, Bool, true, false, not, ◌&&◌, ◌||◌, Option, none, some, List, [], ◌∷◌, map,
  ltb, leb, min, max, nat_eq, ◌==◌, if◌then◌else◌,
}
use acs_base_model_api.Base.Text.{Text}
use acs_base_model_api.Base.Json.{Json}
use acs_base_model_api.Proxy.{
  BackendContext, Reason, unexpected_redirect, network_failure, body_failure, empty_body,
  UpstreamError, upstream_unreachable, upstream_server_error, cold_boot_error, get, Request,
  is_cold_boot_status, modal_continuation_max_redirects, public_request_timeout_ms,
}
use acs_base_model_api.Proxy.Classify.{classify_upstream_error_body, excerpt_body}
use acs_base_model_api.Proxy.Nonstream.{
  Urls, target_url, refused, modal_continuation_url, first_post,
}
use acs_base_model_api.Proxy.Body.{
  Ending, complete, cut_by_timeout, cut_by_error, cut_uncaught, Reply, Opened, open_timeout,
  open_error, open_uncaught, opened, StreamHop, concat,
}

-- how the generator ends; `escaped` is an exception of httpx that no clause catches
pub data StreamEnd : Type 0 where
  finished : StreamEnd
  escaped : StreamEnd
  raised : UpstreamError → StreamEnd

abbrev pub Streamed : Type 0
Streamed = List (Text × Option ℕ) × StreamEnd

pub record StreamState : Type 0 where
  pub redirects : ℕ
  pub empty_body_retried : Bool
  pub request : Request

pub data StreamNext : Type 0 where
  stop : Streamed → StreamNext
  again : StreamState → StreamNext

abbrev pub throw : UpstreamError → StreamNext
throw e = stop ([], raised e)

-- `303 if redirects else 0`
unfoldable pub cold_boot : StreamState → UpstreamError
cold_boot s = cold_boot_error (if s.redirects == 0 then 0 else 303) (max 1 s.redirects)

-- a stall before any byte: a cold boot when one is likely
unfoldable pub stalled : BackendContext → StreamState → Reason → UpstreamError
unfolding cold_boot
stalled ctx s reason =
    if ctx.cold_hint || not (s.redirects == 0)
    then cold_boot s
    else upstream_unreachable reason 1 ctx

unfoldable pub follow_redirect : Urls → BackendContext → StreamState → Option Text → StreamNext
follow_redirect urls ctx s location =
    if ltb modal_continuation_max_redirects (s.redirects + 1)
    then throw (cold_boot_error 303 (s.redirects + 1))
    else elim (modal_continuation_url urls location s.request.url) [
      | refused reason ↦ throw (upstream_unreachable reason 1 ctx)
      | target_url target ↦ again (record {
        redirects = s.redirects + 1;
        empty_body_retried = s.empty_body_retried;
        request = record { method = get; url = target; body = none };
      })
    ]

-- `await resp.aread()`: a failure of it escapes
unfoldable pub aread : Ending → StreamNext → StreamNext
aread complete next = next
aread (cut_by_timeout reason) next = stop ([], escaped)
aread (cut_by_error reason) next = stop ([], escaped)
aread cut_uncaught next = stop ([], escaped)

-- a 200 without a byte: the result URL is asked once more, and never the original POST
unfoldable pub empty_stream : BackendContext → StreamState → StreamNext
empty_stream ctx s =
    if not (s.redirects == 0) && not s.empty_body_retried
    then again (record { redirects = s.redirects; empty_body_retried = true; request = s.request })
    else throw (upstream_unreachable empty_body (if s.empty_body_retried then 2 else 1) ctx)

-- the chunks as they came, the status with the first of them
unfoldable pub with_status : ℕ → List Text → List (Text × Option ℕ)
with_status status [] = []
with_status status (c ∷ cs) = (c, some status) ∷ map (λ b. (b, none)) cs

-- the `async for` over the chunks, and what follows it
unfoldable pub relay : BackendContext → StreamState → (status : ℕ) → List Text → Ending → StreamNext
unfolding with_status stalled empty_stream
relay ctx s status [] complete = empty_stream ctx s
relay ctx s status [] (cut_by_timeout reason) = throw (stalled ctx s (body_failure reason))
relay ctx s status [] (cut_by_error reason) = throw (stalled ctx s (body_failure reason))
relay ctx s status [] cut_uncaught = stop ([], escaped)
relay ctx s status (c ∷ cs) complete = stop (with_status status (c ∷ cs), finished)
relay ctx s status (c ∷ cs) (cut_by_timeout reason) =
    stop (with_status status (c ∷ cs), raised (upstream_unreachable (body_failure reason) 1 ctx))
relay ctx s status (c ∷ cs) (cut_by_error reason) =
    stop (with_status status (c ∷ cs), raised (upstream_unreachable (body_failure reason) 1 ctx))
relay ctx s status (c ∷ cs) cut_uncaught = stop (with_status status (c ∷ cs), escaped)

unfoldable pub stream_reply :
    (Text → Text) → Urls → BackendContext → StreamState → Reply → StreamNext
unfolding follow_redirect aread relay
stream_reply decode urls ctx s r =
    if r.status_code == 303
    then aread r.ending (follow_redirect urls ctx s r.location)
    else if is_cold_boot_status r.status_code
    then throw (upstream_unreachable (unexpected_redirect r.status_code) 1 ctx)
    else if leb 500 r.status_code
    then aread r.ending (
        throw (
          upstream_server_error r.status_code 1 (excerpt_body (decode (concat r.chunks)) 512)
            (classify_upstream_error_body (decode (concat r.chunks))) ctx))
    else if leb 400 r.status_code
    then aread r.ending (stop ((concat r.chunks, some r.status_code) ∷ [], finished))
    else relay ctx s r.status_code r.chunks r.ending

unfoldable pub stream_opened :
    (Text → Text) → Urls → BackendContext → StreamState → Opened → StreamNext
unfolding stream_reply stalled
stream_opened decode urls ctx s (open_timeout reason) =
    throw (stalled ctx s (network_failure reason))
stream_opened decode urls ctx s (open_error reason) =
    throw (upstream_unreachable (network_failure reason) 1 ctx)
stream_opened decode urls ctx s open_uncaught = stop ([], escaped)
stream_opened decode urls ctx s (opened r) = stream_reply decode urls ctx s r

pub record StreamRun : Type 0 where
  pub sent : List Request
  pub streamed : Streamed

pub record StreamCall : Type 0 where
  pub decode : Text → Text
  pub urls : Urls
  pub ctx : BackendContext
  pub hops : ℕ → StreamHop
  pub deadline : ℕ

unfoldable pub after_sending : Request → Option StreamRun → Option StreamRun
after_sending q none = none
after_sending q (some run) = some (record { sent = q ∷ run.sent; streamed = run.streamed })

unfoldable pub stream_on :
    (StreamState → Option StreamRun) → Request → StreamNext → Option StreamRun
unfolding after_sending
stream_on loop q (stop y) = some (record { sent = q ∷ []; streamed = y })
stream_on loop q (again s) = after_sending q (loop s)

-- The `while True` loop, whose first request is the `n`-th of the call. Fuel bounds the rounds, and
-- `none` means that it ran out.
unfoldable pub stream_loop : StreamCall → (fuel n : ℕ) → StreamState → Option StreamRun
unfolding stream_on stream_opened cold_boot
stream_loop call zero n s = none
stream_loop call (suc fuel) n s =
    if leb call.deadline (call.hops n).sent_at
    then some (record { sent = []; streamed = ([], raised (cold_boot s)) })
    else stream_on (stream_loop call fuel (suc n)) s.request
        (stream_opened call.decode call.urls call.ctx s (call.hops n).result)

-- a round for each redirect, one for the empty body and the first one
abbrev pub stream_fuel : ℕ
stream_fuel = modal_continuation_max_redirects + 2

abbrev pub stream_call :
    (Text → Text) → Urls → BackendContext → (ℕ → StreamHop) → (t0 timeout : ℕ) → StreamCall
stream_call decode urls ctx hops t0 timeout = record {
  decode = decode;
  urls = urls;
  ctx = ctx;
  hops = hops;
  deadline = t0 + min timeout public_request_timeout_ms;
}

abbrev pub stream_start : Request → StreamState
stream_start q = record { redirects = 0; empty_body_retried = false; request = q }

-- `body` is the request's body with `include_usage` set
unfoldable pub stream_post :
    (Text → Text)
    → Urls
    → BackendContext
    → (ℕ → StreamHop)
    → (t0 timeout : ℕ) → Text
    → Json
    → Option StreamRun
unfolding stream_loop
stream_post decode urls ctx hops t0 timeout upstream_url body =
    stream_loop (stream_call decode urls ctx hops t0 timeout) stream_fuel 0
      (stream_start (first_post upstream_url body))
