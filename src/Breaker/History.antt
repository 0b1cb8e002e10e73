-- ===== src/Breaker/History.antt =====
-- A registry after any interleaving of calls: the calls on other models do not matter, and the
-- state of a model counts its own calls. A history lists its newest call first.
use mathlib.Core.Bool.{false≢true}
use mathlib.Core.Path.{subst}
use acs_base_model_api.Base.{
  ℕ, ◌+◌, ◌≤◌, ◌<◌, String, ◌≡◌, ◌≢◌, ◌↔◌, refl, sym, ◌∙◌, true, false, Option, none, some, List,
  [], ◌∷◌, arith, inl, inr, eq_iff, ◌==◌, if◌then◌else◌, Bool-cases, Option-cases, string_eq,
}
use acs_base_model_api.Base.Dict.{get, get-set_self, get-set_ne}
use acs_base_model_api.Breaker.{
  closed, Clock, ModelState, Breakers, failure_threshold, new_state, get_state, allow_state, allow,
  success_state, record_success, failure_state, record_failure, reset_state, reset,
}
use acs_base_model_api.Breaker.Transitions.{get-get_state_ne}

pub data Call : Type 0 where
  asked succeeded was_reset : Call
  failed : String → Call

-- a call, the clocks during it, and the model that it is about
pub record Event : Type 0 where
  pub call : Call
  pub now : Clock
  pub model_id : String

unfoldable pub apply : Event → Breakers → Breakers
apply e b = elim e.call [
  | asked ↦ (allow e.now e.model_id b).1
  | succeeded ↦ record_success e.now e.model_id b
  | was_reset ↦ reset e.now e.model_id b
  | failed kind ↦ (record_failure e.now e.model_id kind b).1
]

unfoldable pub run : List Event → Breakers
unfolding apply
run [] = []
run (e ∷ past) = apply e (run past)

-- one model's state under a call of its own
unfoldable pub step : Event → Option ModelState → ModelState
step e known =
    let st : ModelState = elim known [ none ↦ new_state e.now | some st ↦ st ] in
    elim e.call [
      | asked ↦ (allow_state e.now st).1
      | succeeded ↦ success_state e.now st
      | was_reset ↦ reset_state e.now st
      | failed kind ↦ (failure_state e.now kind st).0
    ]

-- what a model's own calls alone would make of it
pub after : String → List Event → Option ModelState
unfolding step
after m [] = none
after m (e ∷ past) = if e.model_id == m then some (step e (after m past)) else after m past

-- the length of the run of failures since the last success or reset
pub streak : String → List Event → ℕ
streak m [] = 0
streak m (e ∷ past) =
    if e.model_id == m
    then elim e.call [
      | asked ↦ streak m past
      | succeeded ↦ 0
      | was_reset ↦ 0
      | failed kind ↦ streak m past + 1
    ]
    else streak m past

abbrev is_failure : Call → ℕ
is_failure (failed kind) = 1
is_failure _ = 0

abbrev is_success : Call → ℕ
is_success succeeded = 1
is_success _ = 0

pub count_calls : (Call → ℕ) → String → List Event → ℕ
count_calls f m [] = 0
count_calls f m (e ∷ past) =
    if e.model_id == m then f e.call + count_calls f m past else count_calls f m past

apply_self :
    (e : Event) (b : Breakers) → get e.model_id (apply e b) ≡ some (step e (get e.model_id b))
unfolding apply step allow record_success reset record_failure get_state
apply_self e b = ground (
  arith,
  get-set_self e.model_id (step e (get e.model_id b)) (get_state e.now e.model_id b).1,
  Option-cases (get e.model_id b),
)

apply_other : (e : Event) (m : String) (b : Breakers) → e.model_id ≢ m → get m (apply e b) ≡ get m b
unfolding apply allow record_success reset record_failure step get_state
apply_other e m b h = ground (
  arith,
  get-get_state_ne e.now e.model_id m b h,
  get-set_ne e.model_id m (step e (get e.model_id b)) (get_state e.now e.model_id b).1 h,
)

own_step :
    (m : String) (e : Event) (past : List Event)
    → (e.model_id == m) ≡ true
    → get m (run past) ≡ after m past
    → get m (apply e (run past)) ≡ some (step e (after m past))
own_step m e past own ih = cc (ih, apply_self e (run past), (eq_iff e.model_id m).0 own)

-- Calls on other models leave a model alone: after any interleaving of calls on any models, the
-- registry holds for each model what that model's own calls alone make of it.
pub run-isolated : (m : String) (h : List Event) → get m (run h) ≡ after m h
unfolding run after get
run-isolated m [] = refl
run-isolated m (e ∷ past) = elim (Bool-cases (e.model_id == m)) [
  | inl own ↦ rw own (own_step m e past own (run-isolated m past))
  | inr other ↦ rw other (
      apply_other e m (run past) (λ p. false≢true (sym other ∙ (eq_iff e.model_id m).1 p))
      ∙ run-isolated m past)
]

-- What the counters of a model's state are, in terms of its history `h`.
pub record Counts (m : String) (h : List Event) (st : ModelState) : Type 0 where
  pub failures_in_a_row : st.consecutive_failures ≡ streak m h
  pub failures : st.total_failures ≡ count_calls is_failure m h
  pub successes : st.total_successes ≡ count_calls is_success m h
  pub trips : st.total_trips ≤ st.total_failures
  pub closed_iff : (st.state ≡ closed) ↔ (streak m h < failure_threshold)

-- `Counts`, or an empty history for a model that no call has named
abbrev CountsOrNew : String → List Event → Option ModelState → Type 0
CountsOrNew m h (some st) = Counts m h st
CountsOrNew m h none =
    (streak m h ≡ 0) × (count_calls is_failure m h ≡ 0) × (count_calls is_success m h ≡ 0)

step-Counts :
    (m : String) (e : Event) (past : List Event) (known : Option ModelState)
    → (e.model_id == m) ≡ true
    → CountsOrNew m past known
    → Counts m (e ∷ past) (step e known)
unfolding step streak count_calls allow_state success_state failure_state reset_state new_state
step-Counts m e past none own h = ground arith
step-Counts m e past (some st) own h = ground arith

other-Counts :
    (m : String) (e : Event) (past : List Event) (known : Option ModelState)
    → (e.model_id == m) ≡ false
    → CountsOrNew m past known
    → CountsOrNew m (e ∷ past) known
unfolding streak count_calls
other-Counts m e past none other h = ground arith
other-Counts m e past (some st) other h = ground arith

after-Counts : (m : String) (h : List Event) → CountsOrNew m h (after m h)
unfolding after streak count_calls
after-Counts m [] = (refl, refl, refl)
after-Counts m (e ∷ past) = elim (Bool-cases (e.model_id == m)) [
  | inl own ↦ rw own (step-Counts m e past (after m past) own (after-Counts m past))
  | inr other ↦ rw other (other-Counts m e past (after m past) other (after-Counts m past))
]

-- After any interleaving of calls on any models, a registered model's counters are what its own
-- calls give: the failures since its last success or reset, all its failures and all its
-- successes; it tripped at most once for each failure; and it is closed exactly while the failures
-- in a row are fewer than the threshold.
pub run-Counts :
    (m : String) (h : List Event) {st : ModelState} → get m (run h) ≡ some st → Counts m h st
run-Counts m h {st} known =
    subst (CountsOrNew m h) (sym (run-isolated m h) ∙ known) (after-Counts m h)
