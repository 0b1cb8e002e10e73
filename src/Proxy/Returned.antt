-- ===== src/Proxy/Returned.antt =====
-- What `post_nonstream` returns to its caller.
use acs_base_model_api.Base.{
  ℕ, ◌+◌, Option, none, some, ◌<◌, ◌≢◌, ◌≡◌, refl, true, false, Bool-cases, not, inl, inr, ◌⊎◌, ltb,
  nat_eq, ◌==◌, ◌&&◌, arith,
}
use acs_base_model_api.Base.Text.{Text}
use acs_base_model_api.Base.Json.{Json}
use acs_base_model_api.Proxy.{
  BackendContext, Reason, Response, is_cold_boot_status, looks_like_completion,
}
use acs_base_model_api.Proxy.Retry.{Tried, answered, timed_out, raised, escaping}
use acs_base_model_api.Proxy.Trace.{Accepted}
use acs_base_model_api.Proxy.Nonstream.{
  Urls, Followed, target_url, refused, modal_continuation_url, Next, Outcome, finish, follow,
  returned, failed, escaped, payload_of, payload_end, final_response, next_step,
}

pub Followed-cases :
    (x : Followed) → ((reason : Reason) × (x ≡ refused reason)) ⊎ ((t : Text) × (x ≡ target_url t))
Followed-cases (refused reason) = inl (reason, refl)
Followed-cases (target_url t) = inr (t, refl)

-- What a caller gets back: no redirect, no server error, and a 200 only with a completion.
abbrev pub Returns : Outcome → Type 0
Returns (failed e) = Unit
Returns escaped = Unit
Returns (returned status payload ms) =
    (is_cold_boot_status status ≡ false)
    × ((status < 500) × ((status ≢ 200) ⊎ (looks_like_completion payload ≡ true)))

payload_end-Returns :
    (ctx : BackendContext) (t0 now status : ℕ) (payload : Option Json)
    → is_cold_boot_status status ≡ false
    → status < 500
    → Returns (payload_end ctx t0 now status payload)
unfolding payload_end
payload_end-Returns ctx t0 now status none other h = tt
payload_end-Returns ctx t0 now status (some payload) other h =
    elim (Bool-cases (looks_like_completion payload)) [
      | inl good ↦ elim (Bool-cases (status == 200 && not (looks_like_completion payload))) [
        | inl bad ↦ rw bad tt
        | inr ok ↦ rw ok (other, (h, inr good))
      ]
      | inr bad ↦ elim (Bool-cases (status == 200)) [
        | inl ok ↦ rw (ok, bad) tt
        | inr no_ok ↦ rw (no_ok, bad) (other, (h, inl (ground arith)))
      ]
    ]

final_response-Returns :
    (ctx : BackendContext) (t0 now : ℕ) (r : Response)
    → r.status_code < 500
    → Returns (final_response ctx t0 now r)
unfolding final_response
final_response-Returns ctx t0 now r h = elim (Bool-cases (is_cold_boot_status r.status_code)) [
  | inl redirect ↦ rw redirect tt
  | inr other ↦ rw other (payload_end-Returns ctx t0 now r.status_code (payload_of r) other h)
]

abbrev pub StepReturns : Next → Type 0
StepReturns (finish o) = Returns o
StepReturns (follow t) = Unit

pub finish-Returns : (x : Next) (o : Outcome) → x ≡ finish o → StepReturns x → Returns o
finish-Returns x o e h = rw e at h

pub next_step-Returns :
    (urls : Urls) (ctx : BackendContext) (t0 last redirects : ℕ) (url : Text) (tried : Tried)
    → Accepted tried
    → StepReturns (next_step urls ctx t0 last redirects url tried)
unfolding next_step
next_step-Returns urls ctx t0 last redirects url timed_out h = tt
next_step-Returns urls ctx t0 last redirects url (raised e) h = tt
next_step-Returns urls ctx t0 last redirects url escaping h = tt
next_step-Returns urls ctx t0 last redirects url (answered r now) h =
    elim (Bool-cases (r.status_code == 303)) [
      | inr other ↦ rw other (final_response-Returns ctx t0 now r h)
      | inl see ↦ elim (Bool-cases (ltb 20 (redirects + 1))) [
        | inl over ↦ rw (see, over) tt
        | inr within ↦ elim (Followed-cases (modal_continuation_url urls r.location url)) [
          | inl (reason, bad) ↦ rw (see, within, bad) tt
          | inr (t, good) ↦ rw (see, within, good) tt
        ]
      ]
    ]
