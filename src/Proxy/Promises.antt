-- ===== src/Proxy/Promises.antt =====
-- What a caller of `post_nonstream` relies on.
use acs_base_model_api.Base.{ℕ, ◌≤◌, ◌≡◌, some}
use acs_base_model_api.Base.Lists.{length, All}
use acs_base_model_api.Base.Text.{Text}
use acs_base_model_api.Base.Json.{Json}
use acs_base_model_api.Proxy.{BackendContext, Hop}
use acs_base_model_api.Proxy.Nonstream.{Urls, first_post, Run, post_nonstream}
use acs_base_model_api.Proxy.Returned.{Returns}
use acs_base_model_api.Proxy.Continuation.{SameOrigin, PostsFirst, InHops, post_nonstream-Ends}

module _ (urls : Urls) (ctx : BackendContext) (hops : ℕ → Hop) (t0 timeout : ℕ) (url : Text)
    (body : Json) where
  -- A call always ends, whatever the network answers: it makes at most twenty-one hops, each of which
  -- sends one request at most four times, so that it sends at most eighty-four requests in all.
  pub post_nonstream_terminates :
      (run : Run) × ((post_nonstream urls ctx hops t0 timeout url body ≡ some run)
        × ((length run.sent ≤ 84) × InHops 21 run.sent))
  post_nonstream_terminates =
      let (run, (e, (facts, fine))) = post_nonstream-Ends urls ctx hops t0 timeout url body in
      (run, (e, (facts.0, facts.1.1.1)))

  -- The API key never leaves the origin of the upstream URL: each request that a call sends goes to
  -- a URL with the same scheme and network location.
  pub post_nonstream-SameOrigin :
      (run : Run) × ((post_nonstream urls ctx hops t0 timeout url body ≡ some run)
        × All (SameOrigin urls (first_post url body)) run.sent)
  post_nonstream-SameOrigin =
      let (run, (e, (facts, fine))) = post_nonstream-Ends urls ctx hops t0 timeout url body in
      (run, (e, facts.1.0))

  -- A call never starts a second input after a redirect: its requests are the POST, at most four
  -- times, and then GETs without a body only.
  pub post_nonstream-PostsFirst :
      (run : Run) × ((post_nonstream urls ctx hops t0 timeout url body ≡ some run)
        × PostsFirst (first_post url body) run.sent)
  post_nonstream-PostsFirst =
      let (run, (e, (facts, fine))) = post_nonstream-Ends urls ctx hops t0 timeout url body in
      (run, (e, facts.1.1.0))

  -- A call always ends, and when it returns and does not raise, it gives a status below 500 that is
  -- no redirect; if that is 200, the payload looks like a completion.
  pub post_nonstream-Returns :
      (run : Run) × ((post_nonstream urls ctx hops t0 timeout url body ≡ some run)
        × Returns run.outcome)
  post_nonstream-Returns =
      let (run, (e, (facts, fine))) = post_nonstream-Ends urls ctx hops t0 timeout url body in
      (run, (e, fine))
