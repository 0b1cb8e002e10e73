-- ===== src/Proxy/Termination.antt =====
-- Every call of `passthrough_post` ends: its fuel is enough.
use acs_base_model_api.Base.{
  ℕ, zero, suc, ◌+◌, ◌≤◌, ◌≡◌, refl, ap, ◌∙◌, Bool-cases, ◌⊎◌, inl, inr, Option, some, [], ◌∷◌, leb,
  min, arith,
}
use acs_base_model_api.Base.Lists.{length, All, All-map}
use acs_base_model_api.Base.Text.{Text}
use acs_base_model_api.Base.Json.{Json}
use acs_base_model_api.Proxy.{BackendContext, Request, public_request_timeout_ms}
use acs_base_model_api.Proxy.Nonstream.{Urls, first_post}
use acs_base_model_api.Proxy.Continuation.{SameOrigin}
use acs_base_model_api.Proxy.Body.{Reply, opened, StreamHop, concat, Yielded}
use acs_base_model_api.Proxy.Passthrough.{
  PassState, PassNext, stop, again, PassRun, PassCall, pass_start, pass_on, sent_before, pass_loop,
  passthrough_post,
}
use acs_base_model_api.Proxy.Delivery.{Fails, Delivers}
use acs_base_model_api.Proxy.Rounds.{repeats, Bounded, OpenFacts, on_opened-OpenFacts}

-- What comes of a run whose first hop is the `n`-th: an exception and no byte, or the whole body of
-- the reply to its last request.
abbrev pub Delivered : (ℕ → StreamHop) → ℕ → PassRun → Type 0
Delivered hops n run =
    Fails run.yielded
    ⊎ ((k : ℕ) × (r : Reply) × ((length run.sent ≡ suc k)
          × (((hops (n + k)).result ≡ opened r)
              × Delivers r.status_code (concat r.chunks) run.yielded.0)))

abbrev Facts : PassCall → Request → ℕ → ℕ → PassRun → Type 0
Facts call q fuel n run =
    (length run.sent ≤ fuel) × (All (SameOrigin call.urls q) run.sent × Delivered call.hops n run)

abbrev Ends : PassCall → Request → ℕ → ℕ → Option PassRun → Type 0
Ends call q fuel n result = (run : PassRun) × ((result ≡ some run) × Facts call q fuel n run)

add_zero : (n : ℕ) → n + 0 ≡ n
add_zero n = omega arith

add_suc : (n k : ℕ) → n + suc k ≡ suc n + k
add_suc n k = omega arith

stop-Ends :
    (call : PassCall) (fuel n : ℕ) (s : PassState) (y : Yielded)
    → OpenFacts call.urls s (call.hops n).result (stop y)
    → Delivered call.hops n (record { sent = s.request ∷ []; yielded = y })
stop-Ends call fuel n s y (inl fails) = inl fails
stop-Ends call fuel n s y (inr (r, (got, delivers))) =
    inr (0, r, (refl, (ap (λ m. (call.hops m).result) (add_zero n) ∙ got, delivers)))

later-Delivered :
    (hops : ℕ → StreamHop) (n : ℕ) (q : Request) (run : PassRun)
    → Delivered hops (suc n) run
    → Delivered hops n (record { sent = q ∷ run.sent; yielded = run.yielded })
later-Delivered hops n q run (inl fails) = inl fails
later-Delivered hops n q run (inr (k, r, (size, (got, delivers)))) =
    inr (suc k, r, (ap suc size, (ap (λ m. (hops m).result) (add_suc n k) ∙ got, delivers)))

pass_on-Ends :
    (call : PassCall) (fuel n : ℕ) (s : PassState) (loop : PassState → Option PassRun)
    (next : PassNext)
    → OpenFacts call.urls s (call.hops n).result next
    → ((t : PassState)
        → Bounded t
        → repeats t ≡ suc (repeats s)
        → Ends call t.request fuel (suc n) (loop t))
    → Ends call s.request (suc fuel) n (pass_on loop s.request next)
unfolding pass_on sent_before
pass_on-Ends call fuel n s loop (stop y) facts rest = (
  record { sent = s.request ∷ []; yielded = y },
  (refl, (omega arith, ((refl, tt), stop-Ends call fuel n s y facts))),
)
pass_on-Ends call fuel n s loop (again t) (o, (more, b)) rest =
    let (run, (e, (size, (origins, delivered)))) = rest t b more in
    rw e (
      record { sent = s.request ∷ run.sent; yielded = run.yielded },
      (
        refl,
        (
          omega (arith, size),
          (
            (refl, All-map (λ q same. same ∙ o) run.sent origins),
            later-Delivered call.hops n s.request run delivered,
          ),
        ),
      ),
    )

pass_loop-Ends :
    (call : PassCall) (fuel n : ℕ) (s : PassState)
    → Bounded s
    → fuel + repeats s ≡ 27
    → Ends call s.request fuel n (pass_loop call fuel n s)
unfolding pass_loop
pass_loop-Ends call zero n s b e = absurd (omega (arith, b.0, b.1.0, b.1.1))
pass_loop-Ends call (suc fuel) n s b e =
    elim (Bool-cases (leb call.deadline (call.hops n).sent_at)) [
      | inl late ↦ rw late (_, (refl, (omega arith, (tt, inl (refl, tt)))))
      | inr early ↦ rw early (
          pass_on-Ends call fuel n s (pass_loop call fuel (suc n)) _
            (on_opened-OpenFacts call.decode call.urls call.ctx s (call.hops n).result b)
            (λ t c more. pass_loop-Ends call fuel (suc n) t c (omega (arith, more))))
    ]

-- A pass-through of a body always ends: within twenty-seven requests, each of which goes to the
-- origin of the upstream URL. Either it raises an exception, one of the
-- proxy or one that no clause of it catches, and has yielded nothing, or
-- what it yielded is the whole body of the reply to its last request, as far as that came: the
-- status stands with the first chunk only, and that chunk looks like a completion, unless it is the
-- body of a client's error.
pub passthrough_post-Delivered :
    (decode : Text → Text) (urls : Urls) (ctx : BackendContext) (hops : ℕ → StreamHop)
    (t0 timeout : ℕ) (url : Text) (body : Json)
    → (run : PassRun) × ((passthrough_post decode urls ctx hops t0 timeout url body ≡ some run)
        × ((length run.sent ≤ 27)
            × (All (SameOrigin urls (first_post url body)) run.sent × Delivered hops 0 run)))
unfolding passthrough_post
passthrough_post-Delivered decode urls ctx hops t0 timeout url body =
    pass_loop-Ends
      (record {
        decode = decode;
        urls = urls;
        ctx = ctx;
        hops = hops;
        deadline = t0 + min timeout public_request_timeout_ms;
      })
      27 0 (pass_start (first_post url body)) (omega arith, (omega arith, omega arith)) refl
