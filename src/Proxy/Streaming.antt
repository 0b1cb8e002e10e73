-- ===== src/Proxy/Streaming.antt =====
-- The runs of `stream_post`.
use acs_base_model_api.Base.{
  ℕ, zero, suc, ◌+◌, ◌≤◌, ◌≡◌, refl, ◌∙◌, Bool-cases, inl, inr, Option, some, List, [], ◌∷◌, leb,
  arith,
}
use acs_base_model_api.Base.Lists.{length, All, All-map}
use acs_base_model_api.Base.Text.{Text}
use acs_base_model_api.Base.Json.{Json}
use acs_base_model_api.Proxy.{BackendContext, Request}
use acs_base_model_api.Proxy.Nonstream.{Urls, first_post}
use acs_base_model_api.Proxy.Continuation.{SameOrigin, Continues}
use acs_base_model_api.Proxy.Body.{StreamHop}
use acs_base_model_api.Proxy.Stream.{
  StreamState, StreamNext, stop, again, StreamRun, StreamCall, after_sending, stream_on,
  stream_loop, stream_call, stream_start, stream_post,
}
use acs_base_model_api.Proxy.Silence.{
  Loud, retries-Bound, repeats, Inv, StepFacts, stream_opened-StepFacts,
}

-- the given request is sent once, and then continuations only
abbrev pub SentOnce : Request → List Request → Type 0
SentOnce q [] = Unit
SentOnce q (p ∷ sent) = (p ≡ q) × All Continues sent

abbrev Facts : Urls → Request → ℕ → StreamRun → Type 0
Facts urls q fuel run =
    (length run.sent ≤ fuel)
    × (All (SameOrigin urls q) run.sent × (SentOnce q run.sent × Loud run.streamed))

abbrev Ends : Urls → Request → ℕ → Option StreamRun → Type 0
Ends urls q fuel result = (run : StreamRun) × ((result ≡ some run) × Facts urls q fuel run)

SentOnce-Continues :
    (q : Request) (sent : List Request) → Continues q → SentOnce q sent → All Continues sent
SentOnce-Continues q [] c h = tt
SentOnce-Continues q (p ∷ sent) c h = (rw h.0 c, h.1)

stream_on-Ends :
    (urls : Urls) (fuel : ℕ) (s : StreamState) (loop : StreamState → Option StreamRun)
    (next : StreamNext)
    → StepFacts urls s next
    → ((t : StreamState) → Inv t → repeats t ≡ suc (repeats s) → Ends urls t.request fuel (loop t))
    → Ends urls s.request (suc fuel) (stream_on loop s.request next)
unfolding stream_on after_sending
stream_on-Ends urls fuel s loop (stop y) loud rest = (
  record { sent = s.request ∷ []; streamed = y },
  (refl, (omega arith, ((refl, tt), ((refl, tt), loud)))),
)
stream_on-Ends urls fuel s loop (again t) (o, (more, (bound, continues))) rest =
    let (run, (e, (size, (origins, (once, loud))))) = rest t (bound, inr continues) more in
    rw e (
      record { sent = s.request ∷ run.sent; streamed = run.streamed },
      (
        refl,
        (
          omega (arith, size),
          (
            (refl, All-map (λ q same. same ∙ o) run.sent origins),
            ((refl, SentOnce-Continues t.request run.sent continues once), loud),
          ),
        ),
      ),
    )

stream_loop-Ends :
    (call : StreamCall) (fuel n : ℕ) (s : StreamState)
    → Inv s
    → fuel + repeats s ≡ 22
    → Ends call.urls s.request fuel (stream_loop call fuel n s)
unfolding stream_loop
stream_loop-Ends call zero n s b e =
    absurd (omega (arith, e, b.0, retries-Bound s.empty_body_retried))
stream_loop-Ends call (suc fuel) n s b e =
    elim (Bool-cases (leb call.deadline (call.hops n).sent_at)) [
      | inl late ↦ rw late (_, (refl, (omega arith, (tt, (tt, tt)))))
      | inr early ↦ rw early (
          stream_on-Ends call.urls fuel s (stream_loop call fuel (suc n)) _
            (stream_opened-StepFacts call.decode call.urls call.ctx s (call.hops n).result b)
            (λ t c more. stream_loop-Ends call fuel (suc n) t c (omega (arith, more, e))))
    ]

-- A stream always ends: within twenty-two requests, each of which goes to the origin of the
-- upstream URL. The POST is sent once, and never again, and what follows are GETs without a body.
-- The stream never ends silently: if it ends without an exception, it has yielded a chunk.
pub stream_post-Loud :
    (decode : Text → Text) (urls : Urls) (ctx : BackendContext) (hops : ℕ → StreamHop)
    (t0 timeout : ℕ) (url : Text) (body : Json)
    → (run : StreamRun) × ((stream_post decode urls ctx hops t0 timeout url body ≡ some run)
        × ((length run.sent ≤ 22)
            × (All (SameOrigin urls (first_post url body)) run.sent
                × (SentOnce (first_post url body) run.sent × Loud run.streamed))))
unfolding stream_post
stream_post-Loud decode urls ctx hops t0 timeout url body =
    stream_loop-Ends (stream_call decode urls ctx hops t0 timeout) 22 0
      (stream_start (first_post url body)) (omega arith, inl refl) refl
