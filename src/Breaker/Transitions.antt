-- ===== src/Breaker/Transitions.antt =====
-- What each call does to the state machine of one backend (breaker.py).
use acs_base_model_api.Base.{
  ℕ, ◌+◌, ◌*◌, ◌≤◌, ◌<◌, String, ◌≡◌, ◌≢◌, ◌↔◌, refl, Bool, true, false, none, some, List, [], ◌∷◌,
  map, arith, max, ◌-◌, ◌/◌, inl, inr, Option-cases, string_eq,
}
use acs_base_model_api.Base.Dict.{get, set, get-set_self, get-set_ne}
use acs_base_model_api.Breaker.{
  open_, half_open, Clock, ModelState, Breakers, Alert, open_duration, new_state, get_state,
  allow_state, allow, failure_state, record_failure, status_of, snapshot, circuit_open_payload,
}

-- the state that a call on `m` works with
abbrev pub state_of : Clock → String → Breakers → ModelState
state_of now m b = (get_state now m b).0

pub get_state-some :
    (now : Clock) (m : String) (b : Breakers) {st : ModelState}
    → get m b ≡ some st
    → get_state now m b ≡ (st, b)
unfolding get_state
get_state-some now m b h = rw (h, get_state)

get_state-none :
    (now : Clock) (m : String) (b : Breakers)
    → get m b ≡ none
    → get_state now m b ≡ (new_state now, set m (new_state now) b)
unfolding get_state
get_state-none now m b h = rw (h, get_state)

pub get_state-set :
    (now : Clock) (m : String) (st : ModelState) (b : Breakers)
    → get_state now m (set m st b) ≡ (st, set m st b)
get_state-set now m st b = get_state-some now m (set m st b) (get-set_self m st b)

pub get-get_state_ne :
    (now : Clock) (m j : String) (b : Breakers) → m ≢ j → get j (get_state now m b).1 ≡ get j b
unfolding get_state
get-get_state_ne now m j b h = elim (Option-cases (get m b)) [
  | inl new ↦ rw (new, get_state) (get-set_ne m j (new_state now) b h)
  | inr (st, old) ↦ rw (old, get_state)
]

-- once a call has registered a model, later calls find the same state
get_state-again :
    (now later : Clock) (m : String) (b : Breakers)
    → get_state later m (get_state now m b).1 ≡ get_state now m b
get_state-again now later m b = elim (Option-cases (get m b)) [
  | inl new ↦ rw (get_state-none now m b new) (get_state-set later m (new_state now) b)
  | inr (st, old) ↦ rw (get_state-some now m b old) (get_state-some later m b old)
]

-- Exactly while a backend is open and its window has not passed, `allow` refuses a request.
pub allow_refuses :
    (now : Clock) (m : String) (b : Breakers)
    → ((allow now m b).0 ≡ false) ↔ (
        ((state_of now m b).state ≡ open_)
        × (now.monotonic < (state_of now m b).opened_at + open_duration))
unfolding allow allow_state
allow_refuses now m b = ground arith

-- `record_failure` alerts exactly when the backend was not open before the call and is open after
-- it, and the alert names the model, the kind and the length of the streak that is then stored.
pub alert_iff_trips :
    (now : Clock) (m k : String) (b : Breakers) (a : Alert)
    → let st = state_of now m b in
      let st' = state_of now m (record_failure now m k b).1 in
      ((record_failure now m k b).0 ≡ some a) ↔ (
        (st.state ≢ open_)
        × (st'.state ≡ open_)
        × (a ≡ record { model_id = m; kind = k; consecutive_failures = st'.consecutive_failures }))
unfolding record_failure failure_state
alert_iff_trips now m k b a =
    ground
      (arith, get_state-set now m (failure_state now k (state_of now m b)).0 (get_state now m b).1)

-- After a trip at `t`, `allow` refuses the next request exactly when it comes less than 60 seconds
-- later; from then on it lets that request through, and the backend is half-open.
pub trip_then_allow :
    (t now : Clock) (m k : String) (b : Breakers) {a : Alert}
    → (record_failure t m k b).0 ≡ some a
    → let tripped = (record_failure t m k b).1 in
      (((allow now m tripped).0 ≡ false) ↔ (now.monotonic < t.monotonic + open_duration))
      × (((allow now m tripped).0 ≡ true) ↔ (
          (t.monotonic + open_duration ≤ now.monotonic)
          × ((state_of now m (allow now m tripped).1).state ≡ half_open)))
unfolding record_failure failure_state allow allow_state
trip_then_allow t now m k b h = ground (
  arith,
  get_state-set now m (failure_state t k (state_of t m b)).0 (get_state t m b).1,
  get_state-set now m (allow_state now (failure_state t k (state_of t m b)).0).1
      (set m (failure_state t k (state_of t m b)).0 (get_state t m b).1),
)

allow-half_open :
    (now : Clock) (m : String) (b : Breakers) {st : ModelState}
    → get m b ≡ some st
    → st.state ≡ half_open
    → ((allow now m b).0 ≡ true) × (get m (allow now m b).1 ≡ some st)
unfolding allow allow_state
allow-half_open now m b {st} known half =
    ground (arith, get_state-some now m b known, get-set_self m st b)

abbrev pub allow_many : List Clock → String → Breakers → List Bool × Breakers
allow_many [] m b = ([], b)
allow_many (now ∷ rest) m b =
    let (ok, b') = allow now m b in let (oks, b'') = allow_many rest m b' in (ok ∷ oks, b'')

-- while a backend is half-open, any number of requests goes through and its state stays
half_open_all :
    (calls : List Clock) (m : String) (b : Breakers) {st : ModelState}
    → get m b ≡ some st
    → st.state ≡ half_open
    → ((allow_many calls m b).0 ≡ map (λ _. true) calls)
      × (get m (allow_many calls m b).1 ≡ some st)
half_open_all [] m b known half = (refl, known)
half_open_all (now ∷ rest) m b {st} known half = ground (
  arith,
  allow-half_open now m b known half,
  half_open_all rest m (allow now m b).1 {st = st} (allow-half_open now m b known half).1 half,
)

-- the first request after the window makes the backend half-open
probe :
    (t now : Clock) (m k : String) (b : Breakers) {a : Alert}
    → (record_failure t m k b).0 ≡ some a
    → t.monotonic + open_duration ≤ now.monotonic
    → (st : ModelState) × (((allow now m (record_failure t m k b).1).0 ≡ true)
        × ((get m (allow now m (record_failure t m k b).1).1 ≡ some st) × (st.state ≡ half_open)))
unfolding record_failure failure_state allow allow_state
probe t now m k b h late =
    let st = (failure_state t k (state_of t m b)).0 in
    let later_state = (allow_state now st).1 in
    rw (get_state-set now m st (get_state t m b).1) (
      later_state,
      (
        ground (arith, h, late),
        (get-set_self m later_state (set m st (get_state t m b).1), ground (arith, h, late)),
      ),
    )

-- times at which the window of a trip at `t` is over
abbrev pub Past : Clock → List Clock → Type 0
Past t [] = Unit
Past t (now ∷ rest) = (t.monotonic + open_duration ≤ now.monotonic) × Past t rest

-- After a trip, from the moment the 60 seconds are over, `allow` lets every one of any number of
-- requests through, as long as no outcome is recorded: no request is held back behind the first.
pub half_open_admits_all :
    (t : Clock) (m k : String) (b : Breakers) {a : Alert} (calls : List Clock)
    → (record_failure t m k b).0 ≡ some a
    → Past t calls
    → (allow_many calls m (record_failure t m k b).1).0 ≡ map (λ _. true) calls
half_open_admits_all t m k b [] h late = refl
half_open_admits_all t m k b (now ∷ rest) h late =
    let (st, (ok, (known, half))) = probe t now m k b h late.0 in
    rw
      (ok, (half_open_all rest m (allow now m (record_failure t m k b).1).1 {st = st} known half).0)
      refl

-- the time a number of seconds later
abbrev pub later : ℕ → Clock → Clock
later seconds now = record now { monotonic = now.monotonic + seconds * 1000 }

-- The retry hint of a refused request (an open backend, opened no later than now) is between 1
-- and 60 seconds, and one second after the hinted time the backend lets a request through.
pub retry_hint :
    (now : Clock) (m : String) (b : Breakers)
    → (state_of now m b).state ≡ open_
    → (state_of now m b).opened_at ≤ now.monotonic
    → let (status, b') = snapshot now m b in
      (r : ℕ) × ((circuit_open_payload now status).retry_after_seconds ≡ some r)
      × (1 ≤ r)
      × (r ≤ 60)
      × ((allow (later (r + 1) now) m b').0 ≡ true)
unfolding snapshot status_of circuit_open_payload allow allow_state
retry_hint now m b is_open now_ok =
    let r = max 1 (((state_of now m b).opened_at + open_duration - now.monotonic) / 1000) in
    (
      r,
      ground (arith),
      ground (arith),
      ground arith,
      ground (arith, get_state-again now (later (r + 1) now) m b),
    )
