-- ===== src/Proxy/Trace.antt =====
-- What one continuation hop sends: the request that it was given, at most four times.
use acs_base_model_api.Base.{
  ℕ, zero, suc, ◌≤◌, ◌<◌, true, ◌≡◌, refl, Bool-cases, not, inl, inr, Option, none, some, List, [],
  ◌∷◌, ltb, leb, arith,
}
use acs_base_model_api.Base.Lists.{length, All}
use acs_base_model_api.ErrorKinds.{is_client_ish}
use acs_base_model_api.Proxy.{
  BackendContext, UpstreamError, Request, Response, Answer, read_timeout, network_error, uncaught,
  replied, Hop,
}
use acs_base_model_api.Proxy.Classify.{classify_upstream_error_body}
use acs_base_model_api.Proxy.Retry.{
  Tried, answered, Attempts, retry_or, response_end, answer_end, attempt_once, attempts,
  request_with_5xx_retry,
}

-- the sent requests are the given one, no more than `bound` times
abbrev pub Repeats : Request → ℕ → List Request → Type 0
Repeats request bound sent = All (λ q. q ≡ request) sent × (length sent ≤ bound)

-- a response that a hop returns is no server error
abbrev pub Accepted : Tried → Type 0
Accepted (answered r now) = r.status_code < 500
Accepted _ = Unit

-- the attempts of a hop, with both
abbrev pub Hopped : Request → ℕ → Attempts → Type 0
Hopped request bound a = Repeats request bound a.0 × Accepted a.1

-- the same for the attempts that a retry would make
abbrev Rest : Request → ℕ → Option Attempts → Type 0
Rest request bound none = Unit
Rest request bound (some a) = Hopped request bound a

once-Repeats : (q : Request) (b : ℕ) → Repeats q (suc b) (q ∷ [])
once-Repeats q b = ((refl, tt), omega arith)

ltb-Lt : (n : ℕ) → ltb n 500 ≡ true → n < 500
ltb-Lt n h = ground arith

retry_or-Hopped :
    (q : Request) (b : ℕ) (rest : Option Attempts) (e : UpstreamError)
    → Rest q b rest
    → Hopped q (suc b) (retry_or q rest e)
unfolding retry_or
retry_or-Hopped q b none e h = (once-Repeats q b, tt)
retry_or-Hopped q b (some (sent, end)) e h = (((refl, h.0.0), omega (arith, h.0.1)), h.1)

response_end-Hopped :
    (ctx : BackendContext) (k now : ℕ) (q : Request) (b : ℕ) (rest : Option Attempts) (r : Response)
    → Rest q b rest
    → Hopped q (suc b) (response_end ctx k now q rest r)
unfolding response_end
response_end-Hopped ctx k now q b rest r h = elim (Bool-cases (ltb r.status_code 500)) [
  | inl low ↦ rw low (once-Repeats q b, ltb-Lt r.status_code low)
  | inr high ↦ elim (Bool-cases (not (is_client_ish (classify_upstream_error_body r.text)))) [
    | inl server ↦ rw (high, server) (retry_or-Hopped q b rest _ h)
    | inr client ↦ rw (high, client) (once-Repeats q b, tt)
  ]
]

answer_end-Hopped :
    (ctx : BackendContext) (k now : ℕ) (q : Request) (b : ℕ) (rest : Option Attempts) (a : Answer)
    → Rest q b rest
    → Hopped q (suc b) (answer_end ctx k now q rest a)
unfolding answer_end
answer_end-Hopped ctx k now q b rest read_timeout h = (once-Repeats q b, tt)
answer_end-Hopped ctx k now q b rest (network_error reason) h = retry_or-Hopped q b rest _ h
answer_end-Hopped ctx k now q b rest uncaught h = (once-Repeats q b, tt)
answer_end-Hopped ctx k now q b rest (replied r) h = response_end-Hopped ctx k now q b rest r h

attempt_once-Hopped :
    (ctx : BackendContext) (deadline k : ℕ) (q : Request) (b : ℕ) (rest : Option Attempts)
    (hop : Hop)
    → Rest q b rest
    → Hopped q (suc b) (attempt_once ctx deadline k q rest hop)
unfolding attempt_once
attempt_once-Hopped ctx deadline k q b rest hop h = elim (Bool-cases (leb deadline hop.sent_at)) [
  | inl late ↦ rw late ((tt, omega arith), tt)
  | inr early ↦ rw early (answer_end-Hopped ctx k hop.answered_at q b rest hop.answer h)
]

attempts-Hopped :
    (ctx : BackendContext) (hops : ℕ → Hop) (deadline : ℕ) (q : Request) (left n : ℕ)
    → Hopped q (suc left) (attempts ctx hops deadline q left n)
unfolding attempts
attempts-Hopped ctx hops deadline q zero n = attempt_once-Hopped ctx deadline 4 q 0 none (hops n) tt
attempts-Hopped ctx hops deadline q (suc left) n =
    attempt_once-Hopped ctx deadline _ q (suc left) (some _) (hops n)
      (attempts-Hopped ctx hops deadline q left (suc n))

pub request_with_5xx_retry-Hopped :
    (ctx : BackendContext) (hops : ℕ → Hop) (deadline : ℕ) (q : Request) (n : ℕ)
    → Hopped q 4 (request_with_5xx_retry ctx hops deadline q n)
unfolding request_with_5xx_retry
request_with_5xx_retry-Hopped ctx hops deadline q n = attempts-Hopped ctx hops deadline q 3 n
