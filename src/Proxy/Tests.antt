-- ===== src/Proxy/Tests.antt =====
-- Concrete exchanges with an upstream.
use acs_base_model_api.Base.{ℕ, ◌≤◌, ◌≡◌, refl, true, none, some, [], ◌∷◌, zero, suc}
use acs_base_model_api.Base.Lists.{length, All}
use acs_base_model_api.Base.Text.{Text, codes}
use acs_base_model_api.Base.Json.{Json, null, obj, stop, field, arr, end}
use acs_base_model_api.ErrorKinds.{ErrorKind}
use acs_base_model_api.Proxy.{
  BackendContext, upstream_unreachable, empty_body, Hop, json_value, json_error, network_error,
  replied, is_cold_boot_status,
}
use acs_base_model_api.Proxy.Classify.{
  classify_upstream_error_body, first_match, search_text, fold_text, starts_with_any, after,
  later_on_line, after_spaces, after_digits,
}
use acs_base_model_api.Proxy.Nonstream.{
  modal_continuation_url, Urls, returned, first_post, Run, post_nonstream,
}
use acs_base_model_api.Proxy.Returned.{Returns}
use acs_base_model_api.Proxy.Continuation.{SameOrigin, PostsFirst, InHops}
use acs_base_model_api.Proxy.Promises.{
  post_nonstream_terminates, post_nonstream-SameOrigin, post_nonstream-PostsFirst,
  post_nonstream-Returns,
}
use acs_base_model_api.Proxy.Body.{
  StreamHop, opened, complete, open_error, head_looks_like_completion,
}
use acs_base_model_api.Proxy.Passthrough.{PassRun, passthrough_post}
use acs_base_model_api.Proxy.Stream.{StreamRun, raised, stream_post}
use acs_base_model_api.Proxy.Silence.{Loud}
use acs_base_model_api.Proxy.Streaming.{SentOnce, stream_post-Loud}
use acs_base_model_api.Proxy.Termination.{Delivered, passthrough_post-Delivered}

abbrev ctx : BackendContext
ctx = record {
  model_id = codes "m";
  gpu_shape = codes "H200:8";
  modal_app_name = codes "app";
  cold_hint = true;
}

-- every URL is relative to one host
abbrev urls : Urls
urls = record {
  urljoin = λ current location. some location;
  origin = λ url. some (codes "https", codes "host");
}

abbrev completion : Json
completion = obj (field (codes "choices") (arr end) stop)

-- a lost connection, a redirect, and then the completion
abbrev hops : ℕ → Hop
hops zero = record { sent_at = 0; answered_at = 10; answer = network_error (codes "refused") }
hops (suc zero) = record {
  sent_at = 1500;
  answered_at = 151500;
  answer = replied (record {
    status_code = 303;
    location = some (codes "/result");
    text = [];
    json = json_error;
  });
}
hops (suc (suc n)) = record {
  sent_at = 151500;
  answered_at = 200000;
  answer =
      replied
        (record { status_code = 200; location = none; text = []; json = json_value completion });
}

abbrev url : Text
url = codes "/v1/completions"

classify_engine :
    classify_upstream_error_body (codes "ENGINE core Terminated") ≡ some ErrorKind.vllm_engine_dead
unfolding classify_upstream_error_body first_match search_text fold_text starts_with_any after
    later_on_line
classify_engine = refl

classify_layer :
    classify_upstream_error_body (codes "layer_index  12 out of range")
    ≡ some ErrorKind.vllm_invalid_request
unfolding classify_upstream_error_body first_match search_text fold_text starts_with_any after
    after_spaces after_digits
classify_layer = refl

nonstream_continues :
    (run : Run) × ((post_nonstream urls ctx hops 0 900000 url null ≡ some run)
      × ((run.outcome ≡ returned 200 completion 200000) × (length run.sent ≡ 3)))
unfolding post_nonstream
nonstream_continues = (_, (refl, (refl, refl)))

post_nonstream_terminates_example :
    (run : Run) × ((post_nonstream urls ctx hops 0 900000 url null ≡ some run)
      × ((length run.sent ≤ 84) × InHops 21 run.sent))
post_nonstream_terminates_example = post_nonstream_terminates urls ctx hops 0 900000 url null

post_nonstream-SameOrigin_example :
    (run : Run) × ((post_nonstream urls ctx hops 0 900000 url null ≡ some run)
      × All (SameOrigin urls (first_post url null)) run.sent)
post_nonstream-SameOrigin_example = post_nonstream-SameOrigin urls ctx hops 0 900000 url null

post_nonstream-PostsFirst_example :
    (run : Run) × ((post_nonstream urls ctx hops 0 900000 url null ≡ some run)
      × PostsFirst (first_post url null) run.sent)
post_nonstream-PostsFirst_example = post_nonstream-PostsFirst urls ctx hops 0 900000 url null

post_nonstream-Returns_example :
    (run : Run) × ((post_nonstream urls ctx hops 0 900000 url null ≡ some run)
      × Returns run.outcome)
post_nonstream-Returns_example = post_nonstream-Returns urls ctx hops 0 900000 url null

abbrev stream_hops : ℕ → StreamHop
stream_hops zero = record { sent_at = 0; result = open_error (codes "refused") }
stream_hops (suc n) = record {
  sent_at = 1200;
  result = opened (record {
    status_code = 200;
    location = none;
    chunks = codes "{\"cho" ∷ codes "ices\":" ∷ codes "[]}" ∷ [];
    ending = complete;
  });
}

passthrough_yields :
    (run : PassRun) × ((passthrough_post (λ t. t) urls ctx stream_hops 0 900000 url null ≡ some run)
      × (run.yielded.0 ≡ (codes "{\"choices\":", some 200) ∷ (codes "[]}", none) ∷ []))
unfolding passthrough_post is_cold_boot_status head_looks_like_completion
passthrough_yields = (_, (refl, refl))

passthrough_post-Delivered_example :
    (run : PassRun) × ((passthrough_post (λ t. t) urls ctx stream_hops 0 900000 url null ≡ some run)
      × ((length run.sent ≤ 27)
          × (All (SameOrigin urls (first_post url null)) run.sent × Delivered stream_hops 0 run)))
passthrough_post-Delivered_example =
    passthrough_post-Delivered (λ t. t) urls ctx stream_hops 0 900000 url null

-- a redirect whose result URL answers 200 without a byte, twice
abbrev silent_hops : ℕ → StreamHop
silent_hops zero = record {
  sent_at = 0;
  result = opened (record {
    status_code = 303;
    location = some (codes "/result");
    chunks = [];
    ending = complete;
  });
}
silent_hops (suc n) = record {
  sent_at = 150000;
  result = opened (record { status_code = 200; location = none; chunks = []; ending = complete });
}

silent_raises :
    (run : StreamRun) × ((stream_post (λ t. t) urls ctx silent_hops 0 900000 url null ≡ some run)
      × ((run.streamed ≡ ([], raised (upstream_unreachable empty_body 2 ctx)))
          × (length run.sent ≡ 3)))
unfolding stream_post is_cold_boot_status modal_continuation_url
silent_raises = (_, (refl, (refl, refl)))

stream_post-Loud_example :
    (run : StreamRun) × ((stream_post (λ t. t) urls ctx silent_hops 0 900000 url null ≡ some run)
      × ((length run.sent ≤ 22)
          × (All (SameOrigin urls (first_post url null)) run.sent
              × (SentOnce (first_post url null) run.sent × Loud run.streamed))))
stream_post-Loud_example = stream_post-Loud (λ t. t) urls ctx silent_hops 0 900000 url null
