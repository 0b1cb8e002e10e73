-- ===== src/Availability.antt =====
-- base_model_wrapper/src/wrapper/services/availability.py: uptime and downtime of one model, from
-- its request rows. A time is a number of microseconds, a duration too; a ratio is kept as its
-- numerator and denominator.
use acs_base_model_api.Base.{
  ℕ, ◌+◌, ◌-◌, Bool, true, false, ◌&&◌, ◌||◌, not, String, Option, none, some, List, [], ◌∷◌, leb,
  ltb, nat_eq, string_eq, ◌==◌, if◌then◌else◌,
}
use acs_base_model_api.Base.Lists.{length, select}
use acs_base_model_api.Base.Sort.{sort_by}
use acs_base_model_api.Base.Text.{Text}
use acs_base_model_api.Base.Json.{text_eq}
pub mod Windows
pub mod Tests

-- the columns of `ApiRequest` that are read
pub record ApiRequest : Type 0 where
  pub model : Option Text
  pub ts : ℕ
  pub status : ℕ
  pub cold_boot : Bool
  pub error_kind : Option String

pub record DowntimeWindow : Type 0 where
  pub start_ts : ℕ
  pub end_ts : Option ℕ
  pub duration : ℕ

pub record ModelAvailability : Type 0 where
  pub model_id : Text
  pub window_start : ℕ
  pub window_end : ℕ
  pub total_requests : ℕ
  pub denominator : ℕ
  pub successes : ℕ
  pub uptime : Option (ℕ × ℕ)
  pub downtime_windows : List DowntimeWindow
  pub mttr : Option (ℕ × ℕ)

abbrev pub is_circuit_open : Option String → Bool
is_circuit_open none = false
is_circuit_open (some k) = k == "circuit_open"

-- the loop, with `run_start`, and the window that is open when it ends
unfoldable pub windows_from : Option ℕ → List (ℕ × Option String) → ℕ → List DowntimeWindow
windows_from none [] period_end = []
windows_from (some a) [] period_end =
    record { start_ts = a; end_ts = none; duration = period_end - a } ∷ []
windows_from none ((ts, kind) ∷ rows) period_end = elim (is_circuit_open kind) [
  | true ↦ windows_from (some ts) rows period_end
  | false ↦ windows_from none rows period_end
]
windows_from (some a) ((ts, kind) ∷ rows) period_end = elim (is_circuit_open kind) [
  | true ↦ windows_from (some a) rows period_end
  | false ↦
      record { start_ts = a; end_ts = some ts; duration = ts - a }
      ∷ windows_from none rows period_end
]

unfoldable pub derive_circuit_open_windows : List (ℕ × Option String) → ℕ → List DowntimeWindow
derive_circuit_open_windows rows period_end = windows_from none rows period_end

-- the query of one model's rows in the period
abbrev pub is_in_period : Text → ℕ → ℕ → ApiRequest → Bool
is_in_period model_id start period_end r =
    (elim r.model [ none ↦ false | some m ↦ text_eq m model_id ])
    && (leb start r.ts && ltb r.ts period_end)

-- a row that counts: no cold boot, no caller error, no rate limit
abbrev pub is_in_denom : ApiRequest → Bool
is_in_denom r = not r.cold_boot && not (r.status == 401 || (r.status == 403 || r.status == 429))

abbrev pub is_success : ApiRequest → Bool
is_success r =
    is_in_denom r && (ltb r.status 400 && (elim r.error_kind [ none ↦ true | some _ ↦ false ]))

abbrev pub timeline : List ApiRequest → List (ℕ × Option String)
timeline [] = []
timeline (r ∷ rs) = (r.ts, r.error_kind) ∷ timeline rs

abbrev pub is_closed : DowntimeWindow → Bool
is_closed w = elim w.end_ts [ none ↦ false | some _ ↦ true ]

unfoldable pub sum_durations : List DowntimeWindow → ℕ
sum_durations [] = 0
sum_durations (w ∷ ws) = w.duration + sum_durations ws

unfoldable pub compute_availability : List ApiRequest → Text → ℕ → ℕ → ModelAvailability
unfolding sum_durations
compute_availability table model_id window now =
    let start = now - window in
    let rows = select (is_in_period model_id start now) table in
    let denominator = length (select is_in_denom rows) in
    let successes = length (select is_success rows) in
    let windows =
      derive_circuit_open_windows (timeline (sort_by (λ a b. leb a.ts b.ts) rows)) now in
    let closed = select is_closed windows in
    record {
      model_id = model_id;
      window_start = start;
      window_end = now;
      total_requests = length rows;
      denominator = denominator;
      successes = successes;
      uptime = if ltb 0 denominator then some (successes, denominator) else none;
      downtime_windows = windows;
      mttr = if ltb 0 (length closed) then some (sum_durations closed, length closed) else none;
    }
