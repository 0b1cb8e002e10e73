-- ===== src/Breaker.antt =====
-- base_model_wrapper/src/wrapper/breaker.py: the circuit breaker of each model backend.
-- Times are whole milliseconds: `monotonic` and `wall` stand for the answers of time.monotonic()
-- and time.time() during the call, which the code reads once under its lock.
pub mod Transitions
pub mod History
pub mod Tests
use acs_base_model_api.Base.{
  ℕ, ◌+◌, ◌-◌, ◌/◌, max, String, Bool, true, false, not, ◌&&◌, Option, none, some, List, [], ◌∷◌,
  map, leb, if◌then◌else◌, string_eq,
}
use acs_base_model_api.Base.Dict.{Dict, get, set, keys}
use acs_base_model_api.Base.Sort.{sort_by, text_le}

pub data State : Type 0 where
  closed open_ half_open : State

abbrev pub failure_threshold : ℕ
failure_threshold = 5

abbrev pub open_duration : ℕ
open_duration = 60000

-- what the two clocks answer
pub record Clock : Type 0 where
  pub monotonic : ℕ
  pub wall : ℕ

pub record ModelState : Type 0 where
  pub consecutive_failures : ℕ
  pub state : State
  pub opened_at : ℕ
  pub last_failure_kind : String
  pub total_failures : ℕ
  pub total_successes : ℕ
  pub total_trips : ℕ
  pub state_changed_at : ℕ

-- `_ModelState()`
unfoldable pub new_state : Clock → ModelState
new_state now = record {
  consecutive_failures = 0;
  state = closed;
  opened_at = 0;
  last_failure_kind = "";
  total_failures = 0;
  total_successes = 0;
  total_trips = 0;
  state_changed_at = now.wall;
}

pub record BreakerStatus : Type 0 where
  pub model_id : String
  pub state : State
  pub consecutive_failures : ℕ
  pub opens_until : Option ℕ
  pub last_failure_kind : String
  pub total_failures : ℕ
  pub total_successes : ℕ
  pub total_trips : ℕ
  pub state_changed_at : ℕ

-- `BackendBreakers._states`
abbrev pub Breakers : Type 0
Breakers = Dict String ModelState

-- `_get`: the state, and the registry with the state in it
unfoldable pub get_state : Clock → String → Breakers → ModelState × Breakers
get_state now model_id states = elim (get model_id states) [
  | some st ↦ (st, states)
  | none ↦ (new_state now, set model_id (new_state now) states)
]

-- The branches of `allow` on one model's state: the answer, and the state after the call.
unfoldable pub allow_state : Clock → ModelState → Bool × ModelState
allow_state now st = elim st.state [
  | closed ↦ (true, st)
  | open_ ↦
      if leb (st.opened_at + open_duration) now.monotonic
      then (true, record st { state = half_open; state_changed_at = now.wall })
      else (false, st)
  | half_open ↦ (true, st)
]

unfoldable pub allow : Clock → String → Breakers → Bool × Breakers
allow now model_id states =
    let (st, states') = get_state now model_id states in
    let (ok, st') = allow_state now st in (ok, set model_id st' states')

unfoldable pub success_state : Clock → ModelState → ModelState
success_state now st =
    let counted : ModelState = record st {
      consecutive_failures = 0;
      total_successes = st.total_successes + 1;
    } in
    elim st.state [
      | closed ↦ counted
      | _ ↦ record counted { state = closed; state_changed_at = now.wall }
    ]

unfoldable pub record_success : Clock → String → Breakers → Breakers
record_success now model_id states =
    let (st, states') = get_state now model_id states in set model_id (success_state now st) states'

-- the arguments of `_alert_breaker_open`, which is called after the lock is released
pub record Alert : Type 0 where
  pub model_id : String
  pub kind : String
  pub consecutive_failures : ℕ

unfoldable pub trip : Clock → ModelState → ModelState
trip now st = record st {
  state = open_;
  opened_at = now.monotonic;
  state_changed_at = now.wall;
  total_trips = st.total_trips + 1;
}

-- the state after the call, and whether it tripped
unfoldable pub failure_state : Clock → String → ModelState → ModelState × Bool
unfolding trip
failure_state now kind st =
    let counted : ModelState = record st {
      consecutive_failures = st.consecutive_failures + 1;
      total_failures = st.total_failures + 1;
      last_failure_kind = kind;
    } in
    elim st.state [
      | half_open ↦ (trip now counted, true)
      | closed ↦
          if leb failure_threshold counted.consecutive_failures
          then (trip now counted, true)
          else (counted, false)
      | open_ ↦ (counted, false)
    ]

unfoldable pub record_failure : Clock → String → String → Breakers → Option Alert × Breakers
record_failure now model_id kind states =
    let (st, states') = get_state now model_id states in
    let (st', tripped) = failure_state now kind st in
    let alert : Alert = record {
      model_id = model_id;
      kind = kind;
      consecutive_failures = st'.consecutive_failures;
    } in
    (if tripped then some alert else none, set model_id st' states')

unfoldable pub reset_state : Clock → ModelState → ModelState
reset_state now st = record st {
  consecutive_failures = 0;
  state = closed;
  state_changed_at = now.wall;
}

unfoldable pub reset : Clock → String → Breakers → Breakers
reset now model_id states =
    let (st, states') = get_state now model_id states in set model_id (reset_state now st) states'

-- `opens_until` counts from the wall clock; max(0, …) of the code is the truncated difference.
unfoldable pub status_of : Clock → String → ModelState → BreakerStatus
status_of now model_id st = record {
  model_id = model_id;
  state = st.state;
  consecutive_failures = st.consecutive_failures;
  opens_until = elim st.state [
    | open_ ↦ some (now.wall + (st.opened_at + open_duration - now.monotonic))
    | _ ↦ none
  ];
  last_failure_kind = st.last_failure_kind;
  total_failures = st.total_failures;
  total_successes = st.total_successes;
  total_trips = st.total_trips;
  state_changed_at = st.state_changed_at;
}

-- `_get` registers an unknown model here too.
unfoldable pub snapshot : Clock → String → Breakers → BreakerStatus × Breakers
snapshot now model_id states =
    let (st, states') = get_state now model_id states in (status_of now model_id st, states')

unfoldable pub snapshots : Clock → List String → Breakers → List BreakerStatus × Breakers
snapshots now [] states = ([], states)
snapshots now (m ∷ ms) states =
    let (status, states') = snapshot now m states in
    let (rest, states'') = snapshots now ms states' in (status ∷ rest, states'')

unfoldable pub all_snapshots : Clock → Breakers → List BreakerStatus × Breakers
unfolding snapshots
all_snapshots now states = snapshots now (sort_by text_le (keys states)) states

-- The fields of the 503 body. Its message is the other fields spelled out, and is left out.
pub record CircuitOpen : Type 0 where
  pub code : String
  pub kind : String
  pub model_id : String
  pub consecutive_failures : ℕ
  pub last_failure_kind : String
  pub retry_after_seconds : Option ℕ
  pub retryable : Bool

unfoldable pub circuit_open_payload : Clock → BreakerStatus → CircuitOpen
circuit_open_payload now status = record {
  code = "circuit_open";
  kind = "upstream_error";
  model_id = status.model_id;
  consecutive_failures = status.consecutive_failures;
  last_failure_kind = status.last_failure_kind;
  retry_after_seconds = elim status.opens_until [
    | none ↦ none
    | some until ↦ some (max 1 ((until - now.wall) / 1000))
  ];
  retryable = true;
}
