-- ===== src/Proxy/Silence.antt =====
-- The rounds of `stream_post`: a clean end comes after a chunk, and a new round sends a GET.
use acs_base_model_api.Base.{
  ℕ, suc, ◌+◌, ◌≤◌, ◌≡◌, refl, Bool, true, false, Bool-cases, ◌⊎◌, inl, inr, Option, some, List, [],
  ◌∷◌, ltb, leb, nat_eq, ◌==◌, arith,
}
use acs_base_model_api.Base.Text.{Text}
use acs_base_model_api.Proxy.{BackendContext, Request, is_cold_boot_status}
use acs_base_model_api.Proxy.Nonstream.{Urls, modal_continuation_url}
use acs_base_model_api.Proxy.Returned.{Followed-cases}
use acs_base_model_api.Proxy.Continuation.{Continues, continuation-Origin}
use acs_base_model_api.Proxy.Body.{
  Ending, complete, cut_by_timeout, cut_by_error, cut_uncaught, Reply, Opened, open_timeout,
  open_error, open_uncaught, opened, concat,
}
use acs_base_model_api.Proxy.Stream.{
  StreamEnd, finished, escaped, raised, Streamed, StreamState, StreamNext, stop, again, throw,
  follow_redirect, aread, empty_stream, with_status, relay, stream_reply, stream_opened,
}

-- a clean end comes after a chunk
abbrev pub LoudEnd : List (Text × Option ℕ) → StreamEnd → Type 0
LoudEnd ys finished =
    (first : Text × Option ℕ) × (more : List (Text × Option ℕ)) × (ys ≡ first ∷ more)
LoudEnd ys escaped = Unit
LoudEnd ys (raised e) = Unit

abbrev pub Loud : Streamed → Type 0
Loud y = LoudEnd y.0 y.1

abbrev pub retries : Bool → ℕ
retries true = 1
retries false = 0

pub retries-Bound : (b : Bool) → retries b ≤ 1
retries-Bound true = omega arith
retries-Bound false = omega arith

abbrev pub repeats : StreamState → ℕ
repeats s = s.redirects + retries s.empty_body_retried

-- after a redirect only GETs are sent
abbrev pub Inv : StreamState → Type 0
Inv s = (s.redirects ≤ 20) × ((s.redirects ≡ 0) ⊎ Continues s.request)

abbrev pub StepFacts : Urls → StreamState → StreamNext → Type 0
StepFacts urls s (stop y) = Loud y
StepFacts urls s (again t) =
    (urls.origin t.request.url ≡ urls.origin s.request.url)
    × ((repeats t ≡ suc (repeats s)) × ((t.redirects ≤ 20) × Continues t.request))

follow_redirect-StepFacts :
    (urls : Urls) (ctx : BackendContext) (s : StreamState) (location : Option Text)
    → StepFacts urls s (follow_redirect urls ctx s location)
unfolding follow_redirect
follow_redirect-StepFacts urls ctx s location = elim (Bool-cases (ltb 20 (s.redirects + 1))) [
  | inl over ↦ rw over tt
  | inr within ↦ elim (Followed-cases (modal_continuation_url urls location s.request.url)) [
    | inl (reason, bad) ↦ rw (within, bad) tt
    | inr (t, good) ↦
        rw (within, good)
          (
            continuation-Origin urls location s.request.url t good,
            (omega arith, (ground arith, (refl, refl))),
          )
  ]
]

aread-StepFacts :
    (urls : Urls) (s : StreamState) (ending : Ending) (next : StreamNext)
    → StepFacts urls s next
    → StepFacts urls s (aread ending next)
unfolding aread
aread-StepFacts urls s complete next h = h
aread-StepFacts urls s (cut_by_timeout reason) next h = tt
aread-StepFacts urls s (cut_by_error reason) next h = tt
aread-StepFacts urls s cut_uncaught next h = tt

abbrev state : ℕ → Bool → Request → StreamState
state redirects retried q = record {
  redirects = redirects;
  empty_body_retried = retried;
  request = q;
}

-- the second request after an empty body is the same GET
retried-StepFacts :
    (urls : Urls) (ctx : BackendContext) (n : ℕ) (retried : Bool) (q : Request)
    → Inv (state n retried q)
    → StepFacts urls (state n retried q) (empty_stream ctx (state n retried q))
unfolding empty_stream
retried-StepFacts urls ctx n true q h = elim (Bool-cases (n == 0)) [
  | inl posts ↦ rw posts tt
  | inr gets ↦ rw gets tt
]
retried-StepFacts urls ctx n false q (bound, inl none_yet) = rw none_yet tt
retried-StepFacts urls ctx n false q (bound, inr continues) = elim (Bool-cases (n == 0)) [
  | inl posts ↦ rw posts tt
  | inr gets ↦ rw gets (refl, (omega arith, (bound, continues)))
]

empty_stream-StepFacts :
    (urls : Urls) (ctx : BackendContext) (s : StreamState)
    → Inv s
    → StepFacts urls s (empty_stream ctx s)
empty_stream-StepFacts urls ctx s =
    retried-StepFacts urls ctx s.redirects s.empty_body_retried s.request

relay-StepFacts :
    (urls : Urls) (ctx : BackendContext) (s : StreamState) (status : ℕ) (chunks : List Text)
    (ending : Ending)
    → Inv s
    → StepFacts urls s (relay ctx s status chunks ending)
unfolding relay with_status
relay-StepFacts urls ctx s status [] complete h = empty_stream-StepFacts urls ctx s h
relay-StepFacts urls ctx s status [] (cut_by_timeout reason) h = tt
relay-StepFacts urls ctx s status [] (cut_by_error reason) h = tt
relay-StepFacts urls ctx s status [] cut_uncaught h = tt
relay-StepFacts urls ctx s status (c ∷ cs) complete h = (_, _, refl)
relay-StepFacts urls ctx s status (c ∷ cs) (cut_by_timeout reason) h = tt
relay-StepFacts urls ctx s status (c ∷ cs) (cut_by_error reason) h = tt
relay-StepFacts urls ctx s status (c ∷ cs) cut_uncaught h = tt

stream_reply-StepFacts :
    (decode : Text → Text) (urls : Urls) (ctx : BackendContext) (s : StreamState) (r : Reply)
    → Inv s
    → StepFacts urls s (stream_reply decode urls ctx s r)
unfolding stream_reply
stream_reply-StepFacts decode urls ctx s r h = elim (Bool-cases (r.status_code == 303)) [
  | inl see ↦ rw see (
      aread-StepFacts urls s r.ending (follow_redirect urls ctx s r.location)
        (follow_redirect-StepFacts urls ctx s r.location))
  | inr e ↦ elim (Bool-cases (is_cold_boot_status r.status_code)) [
    | inl redirect ↦ rw (e, redirect) tt
    | inr f ↦ elim (Bool-cases (leb 500 r.status_code)) [
      | inl server ↦ rw (e, f, server) (aread-StepFacts urls s r.ending (throw _) tt)
      | inr g ↦ elim (Bool-cases (leb 400 r.status_code)) [
        | inl client ↦
            rw (e, f, g, client)
              (aread-StepFacts urls s r.ending
                (stop ((concat r.chunks, some r.status_code) ∷ [], finished)) (_, _, refl))
        | inr good ↦
            rw (e, f, g, good) (relay-StepFacts urls ctx s r.status_code r.chunks r.ending h)
      ]
    ]
  ]
]

pub stream_opened-StepFacts :
    (decode : Text → Text) (urls : Urls) (ctx : BackendContext) (s : StreamState) (o : Opened)
    → Inv s
    → StepFacts urls s (stream_opened decode urls ctx s o)
unfolding stream_opened
stream_opened-StepFacts decode urls ctx s (open_timeout reason) h = tt
stream_opened-StepFacts decode urls ctx s (open_error reason) h = tt
stream_opened-StepFacts decode urls ctx s open_uncaught h = tt
stream_opened-StepFacts decode urls ctx s (opened r) h =
    stream_reply-StepFacts decode urls ctx s r h
