-- ===== src/Proxy/Passthrough.antt =====
-- `passthrough_post` of proxy.py: the continuation protocol for a body that is not held in memory.
-- Chunks are lists of bytes.
use acs_base_model_api.Base.{
  ℕ, zero, suc, ◌+◌, ◌*◌, Option, none, some, List, [], ◌∷◌, ltb, leb, min, nat_eq, ◌==◌,
  if◌then◌else◌,
}
use acs_base_model_api.Base.Text.{Text}
use acs_base_model_api.Base.Json.{Json}
use acs_base_model_api.Proxy.{
  BackendContext, deadline_exceeded, unexpected_redirect, network_failure, UpstreamError,
  upstream_unreachable, upstream_server_error, cold_boot_error, get, Request, is_cold_boot_status,
  modal_continuation_max_redirects, public_request_timeout_ms, retry_5xx_max_retries,
}
use acs_base_model_api.Proxy.Classify.{classify_upstream_error_body, excerpt_body}
use acs_base_model_api.Proxy.Nonstream.{
  Urls, target_url, refused, modal_continuation_url, first_post,
}
use acs_base_model_api.Proxy.Body.{
  Reply, Opened, open_timeout, open_error, open_uncaught, opened, StreamHop, concat, PassEnd, done,
  escaped, raised, Yielded, Where, timeout_error, cut_error, stream_body,
}

-- the variables that the loop assigns
pub record PassState : Type 0 where
  pub redirects : ℕ
  pub attempts_5xx : ℕ
  pub attempts_net : ℕ
  pub last_status : ℕ
  pub request : Request

pub data PassNext : Type 0 where
  stop : Yielded → PassNext
  again : PassState → PassNext

abbrev pub fail_with : UpstreamError → PassNext
fail_with e = stop ([], raised e)

unfoldable pub on_redirect : Urls → BackendContext → PassState → Option Text → PassNext
on_redirect urls ctx s location =
    if ltb modal_continuation_max_redirects (s.redirects + 1)
    then fail_with (cold_boot_error 303 (s.redirects + 1))
    else elim (modal_continuation_url urls location s.request.url) [
      | refused reason ↦ fail_with (upstream_unreachable reason 1 ctx)
      | target_url target ↦ again (record {
        redirects = s.redirects + 1;
        attempts_5xx = s.attempts_5xx;
        attempts_net = s.attempts_net;
        last_status = 303;
        request = record { method = get; url = target; body = none };
      })
    ]

-- `decode` reads the bytes of an error body as `_excerpt_body` does
unfoldable pub on_server_error :
    (Text → Text) → BackendContext → PassState → (status : ℕ) → Text → PassNext
on_server_error decode ctx s status text =
    if ltb s.attempts_5xx retry_5xx_max_retries
    then again (record {
      redirects = s.redirects;
      attempts_5xx = s.attempts_5xx + 1;
      attempts_net = s.attempts_net;
      last_status = status;
      request = s.request;
    })
    else fail_with (
        upstream_server_error status (s.attempts_5xx + 1) (excerpt_body (decode text) 512)
          (classify_upstream_error_body (decode text)) ctx)

-- `await resp.aread()`, and then what follows it
unfoldable pub read_whole : Option PassEnd → PassNext → PassNext
read_whole none next = next
read_whole (some e) next = stop ([], e)

-- a response: its body is read whole where it is no completion
unfoldable pub on_reply : (Text → Text) → Urls → BackendContext → PassState → Reply → PassNext
unfolding on_redirect on_server_error stream_body cut_error read_whole
on_reply decode urls ctx s r =
    let here : Where = record { ctx = ctx; redirects = s.redirects; last_status = r.status_code } in
    if r.status_code == 303
    then read_whole (cut_error here r.ending) (on_redirect urls ctx s r.location)
    else if is_cold_boot_status r.status_code
    then fail_with (upstream_unreachable (unexpected_redirect r.status_code) 1 ctx)
    else if leb 500 r.status_code
    then read_whole (cut_error here r.ending)
        (on_server_error decode ctx s r.status_code (concat r.chunks))
    else if leb 400 r.status_code
    then read_whole (cut_error here r.ending)
        (stop ((concat r.chunks, some r.status_code) ∷ [], done))
    else stop (stream_body here r.status_code r.ending [] r.chunks)

unfoldable pub on_opened : (Text → Text) → Urls → BackendContext → PassState → Opened → PassNext
unfolding on_reply timeout_error
on_opened decode urls ctx s (open_timeout reason) = fail_with (
    timeout_error (record { ctx = ctx; redirects = s.redirects; last_status = s.last_status })
      (network_failure reason))
on_opened decode urls ctx s (open_error reason) =
    if ltb s.attempts_net retry_5xx_max_retries
    then again (record {
      redirects = s.redirects;
      attempts_5xx = s.attempts_5xx;
      attempts_net = s.attempts_net + 1;
      last_status = s.last_status;
      request = s.request;
    })
    else fail_with (upstream_unreachable (network_failure reason) (s.attempts_net + 1) ctx)
on_opened decode urls ctx s open_uncaught = stop ([], escaped)
on_opened decode urls ctx s (opened r) = on_reply decode urls ctx s r

-- what a call did: the requests it sent, in their order, what it yielded and how it ended
pub record PassRun : Type 0 where
  pub sent : List Request
  pub yielded : Yielded

-- the call's fixed arguments
pub record PassCall : Type 0 where
  pub decode : Text → Text
  pub urls : Urls
  pub ctx : BackendContext
  pub hops : ℕ → StreamHop
  pub deadline : ℕ

unfoldable pub sent_before : Request → Option PassRun → Option PassRun
sent_before q none = none
sent_before q (some run) = some (record { sent = q ∷ run.sent; yielded = run.yielded })

unfoldable pub pass_on : (PassState → Option PassRun) → Request → PassNext → Option PassRun
unfolding sent_before
pass_on loop q (stop y) = some (record { sent = q ∷ []; yielded = y })
pass_on loop q (again s) = sent_before q (loop s)

-- The `while True` loop, whose first request is the `n`-th of the call. Fuel bounds the rounds, and
-- `none` means that it ran out.
unfoldable pub pass_loop : PassCall → (fuel n : ℕ) → PassState → Option PassRun
unfolding pass_on on_opened timeout_error
pass_loop call zero n s = none
pass_loop call (suc fuel) n s =
    if leb call.deadline (call.hops n).sent_at
    then some (record {
      sent = [];
      yielded = (
        [],
        raised (
            timeout_error
              (record { ctx = call.ctx; redirects = s.redirects; last_status = s.last_status })
              deadline_exceeded),
      );
    })
    else pass_on (pass_loop call fuel (suc n)) s.request
        (on_opened call.decode call.urls call.ctx s (call.hops n).result)

-- a round for each redirect and retry, and the first one
abbrev pub pass_fuel : ℕ
pass_fuel = modal_continuation_max_redirects + 2 * retry_5xx_max_retries + 1

abbrev pub pass_start : Request → PassState
pass_start q = record {
  redirects = 0;
  attempts_5xx = 0;
  attempts_net = 0;
  last_status = 0;
  request = q;
}

unfoldable pub passthrough_post :
    (Text → Text)
    → Urls
    → BackendContext
    → (ℕ → StreamHop)
    → (t0 timeout : ℕ) → Text
    → Json
    → Option PassRun
unfolding pass_loop
passthrough_post decode urls ctx hops t0 timeout upstream_url body =
    pass_loop
      (record {
        decode = decode;
        urls = urls;
        ctx = ctx;
        hops = hops;
        deadline = t0 + min timeout public_request_timeout_ms;
      })
      pass_fuel 0 (pass_start (first_post upstream_url body))
