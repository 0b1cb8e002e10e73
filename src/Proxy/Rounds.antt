-- ===== src/Proxy/Rounds.antt =====
-- The rounds of `passthrough_post`: their number, where they send their requests, and what comes of
-- the last one.
use acs_base_model_api.Base.{
  ℕ, suc, ◌+◌, ◌≤◌, ◌≡◌, refl, Bool-cases, ◌⊎◌, inl, inr, some, [], ◌∷◌, ltb, leb, nat_eq, ◌==◌,
  arith,
}
use mathlib.Core.List.{append-nil}
use acs_base_model_api.Base.Text.{Text}
use acs_base_model_api.Proxy.{BackendContext, UpstreamError, is_cold_boot_status}
use acs_base_model_api.Proxy.Nonstream.{Urls, modal_continuation_url}
use acs_base_model_api.Proxy.Returned.{Followed-cases}
use acs_base_model_api.Proxy.Continuation.{continuation-Origin}
use acs_base_model_api.Proxy.Body.{
  Reply, Opened, open_timeout, open_error, open_uncaught, opened, Ending, complete, cut_by_timeout,
  cut_by_error, cut_uncaught, concat, done, Where, cut_error,
}
use acs_base_model_api.Proxy.Passthrough.{
  PassState, PassNext, stop, again, fail_with, on_redirect, on_server_error, read_whole, on_reply,
  on_opened,
}
use acs_base_model_api.Proxy.Delivery.{Fails, Delivers, Yields, stream_body-Yields}

-- the rounds that were repeated
abbrev pub repeats : PassState → ℕ
repeats s = s.redirects + s.attempts_5xx + s.attempts_net

abbrev pub Bounded : PassState → Type 0
Bounded s = (s.redirects ≤ 20) × ((s.attempts_5xx ≤ 3) × (s.attempts_net ≤ 3))

-- what a round leads to: another one on the same origin, or an end that delivers the reply's body
abbrev StepFacts : Urls → PassState → Reply → PassNext → Type 0
StepFacts urls s r (stop y) = Yields r.status_code (concat r.chunks) y
StepFacts urls s r (again t) =
    (urls.origin t.request.url ≡ urls.origin s.request.url)
    × ((repeats t ≡ suc (repeats s)) × Bounded t)

fail_with-StepFacts :
    (urls : Urls) (s : PassState) (r : Reply) (e : UpstreamError) → StepFacts urls s r (fail_with e)
fail_with-StepFacts urls s r e = inl (refl, tt)

on_redirect-StepFacts :
    (urls : Urls) (ctx : BackendContext) (s : PassState) (r : Reply)
    → Bounded s
    → StepFacts urls s r (on_redirect urls ctx s r.location)
unfolding on_redirect
on_redirect-StepFacts urls ctx s r b = elim (Bool-cases (ltb 20 (s.redirects + 1))) [
  | inl over ↦ rw over (inl (refl, tt))
  | inr within ↦ elim (Followed-cases (modal_continuation_url urls r.location s.request.url)) [
    | inl (reason, bad) ↦ rw (within, bad) (inl (refl, tt))
    | inr (t, good) ↦
        rw (within, good)
          (
            continuation-Origin urls r.location s.request.url t good,
            (omega arith, (ground arith, b.1)),
          )
  ]
]

on_server_error-StepFacts :
    (decode : Text → Text) (urls : Urls) (ctx : BackendContext) (s : PassState) (r : Reply)
    (text : Text)
    → Bounded s
    → StepFacts urls s r (on_server_error decode ctx s r.status_code text)
unfolding on_server_error
on_server_error-StepFacts decode urls ctx s r text b = elim (Bool-cases (ltb s.attempts_5xx 3)) [
  | inl left ↦ rw left (refl, (omega arith, (b.0, (ground arith, b.1.1))))
  | inr spent ↦ rw spent (inl (refl, tt))
]

read_whole-StepFacts :
    (urls : Urls) (s : PassState) (r : Reply) (here : Where) (ending : Ending) (next : PassNext)
    → StepFacts urls s r next
    → StepFacts urls s r (read_whole (cut_error here ending) next)
unfolding read_whole cut_error
read_whole-StepFacts urls s r here complete next h = h
read_whole-StepFacts urls s r here (cut_by_timeout reason) next h = inl (refl, tt)
read_whole-StepFacts urls s r here (cut_by_error reason) next h = inl (refl, tt)
read_whole-StepFacts urls s r here cut_uncaught next h = inl (refl, tt)

error_body-StepFacts :
    (urls : Urls) (s : PassState) (r : Reply)
    → 400 ≤ r.status_code
    → StepFacts urls s r (stop ((concat r.chunks, some r.status_code) ∷ [], done))
unfolding concat
error_body-StepFacts urls s r h =
    inr (concat r.chunks, [], (refl, (append-nil (concat r.chunks), inr h)))

on_reply-StepFacts :
    (decode : Text → Text) (urls : Urls) (ctx : BackendContext) (s : PassState) (r : Reply)
    → Bounded s
    → StepFacts urls s r (on_reply decode urls ctx s r)
unfolding on_reply
on_reply-StepFacts decode urls ctx s r b =
    let here : Where = record { ctx = ctx; redirects = s.redirects; last_status = r.status_code } in
    elim (Bool-cases (r.status_code == 303)) [
      | inl see ↦
          rw see
            (read_whole-StepFacts urls s r here r.ending _ (on_redirect-StepFacts urls ctx s r b))
      | inr e ↦ elim (Bool-cases (is_cold_boot_status r.status_code)) [
        | inl redirect ↦ rw (e, redirect) (inl (refl, tt))
        | inr f ↦ elim (Bool-cases (leb 500 r.status_code)) [
          | inl server ↦
              rw (e, f, server)
                (read_whole-StepFacts urls s r here r.ending _
                  (on_server_error-StepFacts decode urls ctx s r _ b))
          | inr g ↦ elim (Bool-cases (leb 400 r.status_code)) [
            | inl client ↦
                rw (e, f, g, client)
                  (read_whole-StepFacts urls s r here r.ending
                    (stop ((concat r.chunks, some r.status_code) ∷ [], done))
                    (error_body-StepFacts urls s r (ground arith)))
            | inr good ↦
                rw (e, f, g, good) (stream_body-Yields here r.status_code r.ending [] r.chunks)
          ]
        ]
      ]
    ]

-- the same of a round that may have got no reply
abbrev pub OpenFacts : Urls → PassState → Opened → PassNext → Type 0
OpenFacts urls s o (stop y) =
    Fails y ⊎ ((r : Reply) × ((o ≡ opened r) × Delivers r.status_code (concat r.chunks) y.0))
OpenFacts urls s o (again t) =
    (urls.origin t.request.url ≡ urls.origin s.request.url)
    × ((repeats t ≡ suc (repeats s)) × Bounded t)

opened-OpenFacts :
    (urls : Urls) (s : PassState) (r : Reply) (next : PassNext)
    → StepFacts urls s r next
    → OpenFacts urls s (opened r) next
opened-OpenFacts urls s r (stop y) (inl fails) = inl fails
opened-OpenFacts urls s r (stop y) (inr delivers) = inr (r, (refl, delivers))
opened-OpenFacts urls s r (again t) h = h

pub on_opened-OpenFacts :
    (decode : Text → Text) (urls : Urls) (ctx : BackendContext) (s : PassState) (o : Opened)
    → Bounded s
    → OpenFacts urls s o (on_opened decode urls ctx s o)
unfolding on_opened
on_opened-OpenFacts decode urls ctx s (open_timeout reason) b = inl (refl, tt)
on_opened-OpenFacts decode urls ctx s (open_error reason) b =
    elim (Bool-cases (ltb s.attempts_net 3)) [
      | inl left ↦ rw left (refl, (omega arith, (b.0, (b.1.0, ground arith))))
      | inr spent ↦ rw spent (inl (refl, tt))
    ]
on_opened-OpenFacts decode urls ctx s open_uncaught b = inl (refl, tt)
on_opened-OpenFacts decode urls ctx s (opened r) b =
    opened-OpenFacts urls s r _ (on_reply-StepFacts decode urls ctx s r b)
