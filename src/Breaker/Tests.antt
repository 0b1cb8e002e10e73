-- ===== src/Breaker/Tests.antt =====
-- The circuit breaker at concrete inputs.
use acs_base_model_api.Base.{
  ◌≡◌, ◌≢◌, ◌↔◌, ◌<◌, ◌≤◌, ◌+◌, ℕ, refl, String, true, false, some, List, [], ◌∷◌, map, arith,
  string_eq,
}
use acs_base_model_api.Base.Dict.{get, set}
use acs_base_model_api.Breaker.{
  open_, half_open, Clock, ModelState, Alert, open_duration, new_state, get_state, allow_state,
  allow, record_success, failure_state, record_failure,
}
use acs_base_model_api.Breaker.Transitions.{
  state_of, alert_iff_trips, trip_then_allow, allow_many, half_open_admits_all,
}
use acs_base_model_api.Breaker.History.{
  Call, asked, succeeded, failed, Event, run, after, run-isolated, Counts, run-Counts,
}

abbrev at : ℕ → Clock
at t = record { monotonic = t; wall = 1_000_000 + t }

abbrev event : ℕ → String → Call → Event
event t m c = record { call = c; now = at t; model_id = m }

-- four failures of "a", with a success of "b" among them; newest first
abbrev four : List Event
four =
    event 40 "a" (failed "upstream_5xx")
    ∷ event 30 "a" (failed "upstream_5xx")
    ∷ event 25 "b" succeeded
    ∷ event 20 "a" (failed "upstream_5xx")
    ∷ event 10 "a" (failed "upstream_5xx")
    ∷ []

abbrev five : List Event
five = event 50 "a" (failed "upstream_unreachable") ∷ four

abbrev probing : List Event
probing = event 60050 "a" asked ∷ five

alert_iff_trips_example :
    let st = state_of (at 50) "a" (run four) in
    let st' = state_of (at 50) "a" (record_failure (at 50) "a" "k" (run four)).1 in
    let a : Alert = record { model_id = "a"; kind = "k"; consecutive_failures = 5 } in
    ((record_failure (at 50) "a" "k" (run four)).0 ≡ some a) ↔ (
      (st.state ≢ open_)
      × (st'.state ≡ open_)
      × (a
          ≡ record { model_id = "a"; kind = "k"; consecutive_failures = st'.consecutive_failures }))
alert_iff_trips_example =
    alert_iff_trips (at 50) "a" "k" (run four)
      (record { model_id = "a"; kind = "k"; consecutive_failures = 5 })

trip_then_allow_example :
    let tripped = (record_failure (at 50) "a" "k" (run four)).1 in
    (((allow (at 60049) "a" tripped).0 ≡ false) ↔ (60049 < 50 + open_duration))
    × (((allow (at 60049) "a" tripped).0 ≡ true) ↔ (
        (50 + open_duration ≤ 60049)
        × ((state_of (at 60049) "a" (allow (at 60049) "a" tripped).1).state ≡ half_open)))
unfolding run get set get_state new_state allow allow_state record_success record_failure
    failure_state
trip_then_allow_example =
    trip_then_allow (at 50) (at 60049) "a" "k" (run four)
      {a = record { model_id = "a"; kind = "k"; consecutive_failures = 5 }} refl

abbrev probed : ModelState
probed = record {
  consecutive_failures = 5;
  state = half_open;
  opened_at = 50;
  last_failure_kind = "upstream_unreachable";
  total_failures = 5;
  total_successes = 0;
  total_trips = 1;
  state_changed_at = 1_060_050;
}

half_open_admits_all_example :
    let tripped = (record_failure (at 50) "a" "k" (run four)).1 in
    let calls = at 60050 ∷ at 60061 ∷ at 60062 ∷ [] in
    (allow_many calls "a" tripped).0 ≡ map (λ _. true) calls
unfolding run get set get_state new_state allow allow_state record_success record_failure
    failure_state
half_open_admits_all_example =
    half_open_admits_all (at 50) "a" "k" (run four)
      {a = record { model_id = "a"; kind = "k"; consecutive_failures = 5 }}
      (at 60050 ∷ at 60061 ∷ at 60062 ∷ []) refl (omega arith, (omega arith, (omega arith, tt)))

run-isolated_example : get "b" (run five) ≡ after "b" five
run-isolated_example = run-isolated "b" five

run-Counts_example : Counts "a" probing probed
unfolding run get set get_state new_state allow allow_state record_success record_failure
    failure_state
run-Counts_example = run-Counts "a" probing {st = probed} refl
