-- ===== src/Proxy/Continuation.antt =====
-- The continuation protocol of `post_nonstream`: every call ends, it stays on its origin, and its
-- POSTs stand before the first redirect.
use acs_base_model_api.Base.{
  ℕ, zero, suc, ◌+◌, ◌*◌, ◌≤◌, ◌≡◌, refl, sym, ap, ◌∙◌, true, Option-cases, inl, inr, ◌⊎◌, Option,
  none, some, List, [], ◌∷◌, ◌++◌, nat_eq, arith,
}
use mathlib.Core.List.{append-nil}
use acs_base_model_api.Base.Lists.{length, length-append, All, All-append, All-map}
use acs_base_model_api.Base.Text.{Text}
use acs_base_model_api.Base.Json.{Json, text_eq-Eq}
use acs_base_model_api.Proxy.{BackendContext, get, Request, Hop}
use acs_base_model_api.Proxy.Retry.{
  Tried, answered, timed_out, raised, escaping, request_with_5xx_retry,
}
use acs_base_model_api.Proxy.Trace.{Repeats, request_with_5xx_retry-Hopped}
use acs_base_model_api.Proxy.Nonstream.{
  Urls, target_url, same_origin, check_origin, modal_continuation_url, Next, Outcome, finish,
  follow, next_step, Run, prepend, take_step, Call, follow_loop, first_post, nonstream_call,
  post_nonstream,
}
use acs_base_model_api.Proxy.Returned.{Returns, finish-Returns, next_step-Returns}

same_origin-Eq : (o p : Text × Text) → same_origin o p ≡ true → p ≡ o
unfolding same_origin
same_origin-Eq (s, n) (t, m) h = ground (arith, text_eq-Eq t s, text_eq-Eq m n)

check_origin-Eq :
    (urls : Urls) (current target t : Text)
    → check_origin urls current target ≡ target_url t
    → urls.origin t ≡ urls.origin current
unfolding check_origin
check_origin-Eq urls current target t h = elim (Option-cases (urls.origin current)) [
  | inl e ↦ ground arith
  | inr (o, e) ↦ elim (Option-cases (urls.origin target)) [
    | inl k ↦ ground arith
    | inr (p, k) ↦ ground (arith, same_origin-Eq o p)
  ]
]

pub continuation-Origin :
    (urls : Urls) (location : Option Text) (current t : Text)
    → modal_continuation_url urls location current ≡ target_url t
    → urls.origin t ≡ urls.origin current
unfolding modal_continuation_url
continuation-Origin urls none current t h = ground arith
continuation-Origin urls (some []) current t h = ground arith
continuation-Origin urls (some (c ∷ l)) current t h =
    elim (Option-cases (urls.urljoin current (c ∷ l))) [
      | inl e ↦ ground arith
      | inr (j, e) ↦ ground (arith, check_origin-Eq urls current j t)
    ]

next_step-Origin :
    (urls : Urls) (ctx : BackendContext) (t0 last redirects : ℕ) (url t : Text) (tried : Tried)
    → next_step urls ctx t0 last redirects url tried ≡ follow t
    → (urls.origin t ≡ urls.origin url) × (suc redirects ≤ 20)
unfolding next_step
next_step-Origin urls ctx t0 last redirects url t timed_out h = ground arith
next_step-Origin urls ctx t0 last redirects url t (raised e) h = ground arith
next_step-Origin urls ctx t0 last redirects url t escaping h = ground arith
next_step-Origin urls ctx t0 last redirects url t (answered r now) h =
    ground (arith, continuation-Origin urls r.location url t)

-- A request of a run: it goes to the origin of the first one.
abbrev pub SameOrigin : Urls → Request → Request → Type 0
SameOrigin urls first q = urls.origin q.url ≡ urls.origin first.url

-- a continuation: a GET without a body
abbrev pub Continues : Request → Type 0
Continues q = (q.method ≡ get) × (q.body ≡ none)

-- the first hop's attempts, and then continuations only
abbrev pub PostsFirst : Request → List Request → Type 0
PostsFirst first sent =
    (posts : List Request) × (gets : List Request) × ((sent ≡ posts ++ gets)
      × (Repeats first 4 posts × All Continues gets))

abbrev pub joined : List (List Request) → List Request
joined [] = []
joined (h ∷ hs) = h ++ joined hs

-- the requests are those of at most `bound` hops, each of which repeats one request, four times at
-- most
abbrev pub InHops : ℕ → List Request → Type 0
InHops bound sent =
    (hs : List (List Request)) × ((sent ≡ joined hs)
      × ((length hs ≤ bound) × All (λ h. (q : Request) × Repeats q 4 h) hs))

abbrev pub Facts : Urls → Request → ℕ → List Request → Type 0
Facts urls first fuel sent =
    (length sent ≤ 4 * fuel)
    × (All (SameOrigin urls first) sent × (PostsFirst first sent × InHops fuel sent))

same-SameOrigin :
    (urls : Urls) (first : Request) (sent : List Request)
    → All (λ q. q ≡ first) sent
    → All (SameOrigin urls first) sent
same-SameOrigin urls first = All-map (λ q e. ap (λ x. urls.origin x.url) e)

first_hop-Facts :
    (urls : Urls) (first : Request) (fuel : ℕ) (sent : List Request)
    → Repeats first 4 sent
    → Facts urls first (suc fuel) sent
first_hop-Facts urls first fuel sent h = (
  omega (arith, h.1),
  (
    same-SameOrigin urls first sent h.0,
    (
      (sent, [], (sym (append-nil sent), (h, tt))),
      (sent ∷ [], (sym (append-nil sent), (omega arith, ((first, h), tt)))),
    ),
  ),
)

-- what a GET's hops send are continuations
gets-Continues :
    (first : Request) (sent : List Request)
    → Continues first
    → PostsFirst first sent
    → All Continues sent
gets-Continues first sent c (posts, gets, (e, (p, g))) =
    rw e (All-append Continues posts gets (All-map (λ q same. rw same c) posts p.0) g)

hop-Facts :
    (urls : Urls) (first next : Request) (fuel : ℕ) (sent more : List Request)
    → Repeats first 4 sent
    → urls.origin next.url ≡ urls.origin first.url
    → Continues next
    → Facts urls next fuel more
    → Facts urls first (suc fuel) (sent ++ more)
hop-Facts urls first next fuel sent more h o c (m, (s, (p, (hs, (e, (small, each)))))) = (
  omega (arith, length-append sent more, h.1),
  (
    All-append (SameOrigin urls first) sent more (same-SameOrigin urls first sent h.0)
        (All-map (λ q e. e ∙ o) more s),
    (
      (sent, more, (refl, (h, gets-Continues next more c p))),
      (sent ∷ hs, (ap (λ r. sent ++ r) e, (omega (arith, small), ((first, h), each)))),
    ),
  ),
)

Next-cases : (x : Next) → ((o : Outcome) × (x ≡ finish o)) ⊎ ((t : Text) × (x ≡ follow t))
Next-cases (finish o) = inl (o, refl)
Next-cases (follow t) = inr (t, refl)

-- a run that ends with the facts of its trace
abbrev pub Ends : Urls → Request → ℕ → Option Run → Type 0
Ends urls first fuel result =
    (run : Run) × ((result ≡ some run) × (Facts urls first fuel run.sent × Returns run.outcome))

take_step-Ends :
    (urls : Urls) (first : Request) (again : Request → ℕ → Option Run) (fuel n : ℕ)
    (sent : List Request) (t : Text)
    → Repeats first 4 sent
    → urls.origin t ≡ urls.origin first.url
    → ((q : Request) (m : ℕ) → Ends urls q fuel (again q m))
    → Ends urls first (suc fuel) (take_step again n sent (follow t))
unfolding take_step prepend
take_step-Ends urls first again fuel n sent t h o rest =
    let next : Request = record { method = get; url = t; body = none } in
    let (run, (e, (facts, fine))) = rest next (n + length sent) in
    rw e (
      record { sent = sent ++ run.sent; outcome = run.outcome },
      (refl, (hop-Facts urls first next fuel sent run.sent h o (refl, refl) facts, fine)),
    )

follow_loop-Ends :
    (call : Call) (fuel last redirects : ℕ) (q : Request) (n : ℕ)
    → fuel + redirects ≡ 21
    → redirects ≤ 20
    → Ends call.urls q fuel (follow_loop call fuel last redirects q n)
unfolding follow_loop
follow_loop-Ends call zero last redirects q n e bound = absurd (omega arith)
follow_loop-Ends call (suc fuel) last redirects q n e bound =
    let tried = request_with_5xx_retry call.ctx call.hops call.deadline q n in
    let h = request_with_5xx_retry-Hopped call.ctx call.hops call.deadline q n in
    elim (Next-cases (next_step call.urls call.ctx call.t0 last redirects q.url tried.1)) [
      | inl (o, stops) ↦ rw stops (
        record { sent = tried.0; outcome = o },
        (
          refl,
          (
            first_hop-Facts call.urls q fuel tried.0 h.0,
            finish-Returns _ o stops
                (next_step-Returns call.urls call.ctx call.t0 last redirects q.url tried.1 h.1),
          ),
        ),
      )
      | inr (t, goes) ↦
          let (same, small) =
            next_step-Origin call.urls call.ctx call.t0 last redirects q.url t tried.1 goes in
          rw goes (
            take_step-Ends call.urls q _ fuel n tried.0 t h.0 same (λ p m.
              follow_loop-Ends call fuel 303 (redirects + 1) p m (omega arith)
                (omega (arith, small))))
    ]

pub post_nonstream-Ends :
    (urls : Urls) (ctx : BackendContext) (hops : ℕ → Hop) (t0 timeout : ℕ) (url : Text)
    (body : Json)
    → Ends urls (first_post url body) 21 (post_nonstream urls ctx hops t0 timeout url body)
unfolding post_nonstream
post_nonstream-Ends urls ctx hops t0 timeout url body =
    follow_loop-Ends (nonstream_call urls ctx hops t0 timeout) 21 0 0 (first_post url body) 0 refl
      (omega arith)
