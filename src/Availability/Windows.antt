-- ===== src/Availability/Windows.antt =====
-- The downtime windows of services/availability.py, against the rows that they come from.
use mathlib.Core.Path.{subst}
use acs_base_model_api.Base.{
  ℕ, ◌-◌, ◌≤◌, ◌≡◌, refl, sym, ap, ◌↔◌, ◌++◌, string_eq, Bool, true, false, String, Option, none,
  some, List, [], ◌∷◌, arith, inl, inr, ◌⊎◌, Bool-cases,
}
use acs_base_model_api.Base.Lists.{All, length, select}
use acs_base_model_api.Base.Text.{Text}
use acs_base_model_api.Availability.{
  ApiRequest, DowntimeWindow, is_circuit_open, windows_from, derive_circuit_open_windows,
  is_in_denom, is_success, is_in_period, compute_availability,
}

-- the rows are in the order of their times, none before `lo`
abbrev pub Ascending : ℕ → List (ℕ × Option String) → Type 0
Ascending lo [] = Unit
Ascending lo ((ts, kind) ∷ rows) = (lo ≤ ts) × Ascending ts rows

-- the windows start no earlier than `lo`, none before the one in front has ended, and each lasts
-- from its start to its end; an open one is the last, and lasts to the end of the period
abbrev pub Chained : ℕ → ℕ → List DowntimeWindow → Type 0
Chained lo stop [] = Unit
Chained lo stop (w ∷ ws) = (lo ≤ w.start_ts) × (elim w.end_ts [
  | none ↦ (ws ≡ []) × (w.duration ≡ stop - w.start_ts)
  | some e ↦ (w.start_ts ≤ e) × (w.duration ≡ e - w.start_ts) × Chained e stop ws
])

-- the start of the run after a `circuit_open` row
abbrev run_from : Option ℕ → ℕ → ℕ
run_from none ts = ts
run_from (some a) ts = a

open_row :
    (run : Option ℕ) (ts stop : ℕ) (kind : Option String) (rows : List (ℕ × Option String))
    → is_circuit_open kind ≡ true
    → windows_from run ((ts, kind) ∷ rows) stop ≡ windows_from (some (run_from run ts)) rows stop
unfolding windows_from
open_row none ts stop kind rows k = rw (k, windows_from) refl
open_row (some a) ts stop kind rows k = rw (k, windows_from) refl

idle_row :
    (ts stop : ℕ) (kind : Option String) (rows : List (ℕ × Option String))
    → is_circuit_open kind ≡ false
    → windows_from none ((ts, kind) ∷ rows) stop ≡ windows_from none rows stop
unfolding windows_from
idle_row ts stop kind rows k = rw (k, windows_from) refl

closed_window : ℕ → ℕ → DowntimeWindow
closed_window a ts = record { start_ts = a; end_ts = some ts; duration = ts - a }

closing_row :
    (a ts stop : ℕ) (kind : Option String) (rows : List (ℕ × Option String))
    → is_circuit_open kind ≡ false
    → windows_from (some a) ((ts, kind) ∷ rows) stop
      ≡ closed_window a ts ∷ windows_from none rows stop
unfolding windows_from closed_window
closing_row a ts stop kind rows k = rw (k, windows_from) refl

Chained-mono :
    (lo hi stop : ℕ) (ws : List DowntimeWindow) → lo ≤ hi → Chained hi stop ws → Chained lo stop ws
Chained-mono lo hi stop [] le c = tt
Chained-mono lo hi stop (w ∷ ws) le (c, cs) = (omega (arith, le, c), cs)

closed-Chained :
    (a t stop : ℕ) (ws : List DowntimeWindow)
    → a ≤ t
    → Chained t stop ws
    → Chained a stop (closed_window a t ∷ ws)
unfolding closed_window
closed-Chained a t stop ws le c = (omega arith, (le, refl, c))

from-Chained :
    (run : Option ℕ) (lo stop : ℕ) (rows : List (ℕ × Option String))
    → Ascending lo rows
    → ((a : ℕ) → run ≡ some a → a ≤ lo)
    → Chained (run_from run lo) stop (windows_from run rows stop)
unfolding windows_from
from-Chained none lo stop [] s h = tt
from-Chained (some a) lo stop [] s h = (omega arith, (refl, refl))
from-Chained none lo stop ((t, kind) ∷ rows) (lt, s) h = elim (Bool-cases (is_circuit_open kind)) [
  | inl k ↦ subst (Chained lo stop) (sym (open_row none t stop kind rows k)) (
      Chained-mono lo t stop (windows_from (some t) rows stop) lt
        (from-Chained (some t) t stop rows s (λ a p. ground (arith, p))))
  | inr k ↦ subst (Chained lo stop) (sym (idle_row t stop kind rows k)) (
      Chained-mono lo t stop (windows_from none rows stop) lt
        (from-Chained none t stop rows s (λ a p. ground (arith, p))))
]
from-Chained (some b) lo stop ((t, kind) ∷ rows) (lt, s) h =
    elim (Bool-cases (is_circuit_open kind)) [
      | inl k ↦
          let le : b ≤ t = omega (arith, h b refl, lt) in
          subst (Chained b stop) (sym (open_row (some b) t stop kind rows k))
            (from-Chained (some b) t stop rows s (λ a p. ground (arith, le, p)))
      | inr k ↦ subst (Chained b stop) (sym (closing_row b t stop kind rows k)) (
          closed-Chained b t stop (windows_from none rows stop) (omega (arith, h b refl, lt))
            (from-Chained none t stop rows s (λ a p. ground (arith, p))))
    ]

-- the kind of a request that the open breaker refused
abbrev pub IsOpen : Option String → Type 0
IsOpen kind = kind ≡ some "circuit_open"

abbrev text_of : Option String → String
text_of none = ""
text_of (some k) = k

is_circuit_open_iff : (kind : Option String) → (is_circuit_open kind ≡ true) ↔ IsOpen kind
is_circuit_open_iff none = ((λ e. absurd (ground (arith, e))), (λ e. absurd (ground (arith, e))))
is_circuit_open_iff (some k) = (
  (λ e. ap some ((string_eq.equals_iff k "circuit_open").0 e)),
  (λ e. (string_eq.equals_iff k "circuit_open").1 (ap text_of e)),
)

other_kind : (kind : Option String) → is_circuit_open kind ≡ false → ¬ IsOpen kind
other_kind kind k e = absurd (ground (arith, k, (is_circuit_open_iff kind).1 e))

abbrev pub Rows : Type 0
Rows = List (ℕ × Option String)

-- how a window ends: with the rows, or at the row in front of `rest`, which is not `circuit_open`,
-- and after which `After` holds of the others
abbrev pub EndsAt : ℕ → DowntimeWindow → List DowntimeWindow → (Rows → Type 0) → Rows → Type 0
EndsAt stop w ws After rest =
    ((rest ≡ []) × ((ws ≡ []) × ((w.end_ts ≡ none) × (w.duration ≡ stop - w.start_ts))))
    ⊎ ((t : ℕ) × (kind : Option String) × (others : Rows) × ((rest ≡ (t, kind) ∷ others)
          × ((¬ IsOpen kind)
              × ((w.end_ts ≡ some t) × ((w.duration ≡ t - w.start_ts) × After others)))))

-- The windows are the maximal runs of `circuit_open` rows: between two windows no row is one, a
-- window starts at such a row, and all rows up to its end are such.
abbrev pub Runs : ℕ → Rows → List DowntimeWindow → Type 0
Runs stop rows [] = All (λ r. ¬ IsOpen r.1) rows
Runs stop rows (w ∷ ws) =
    (idle : Rows) × (more : Rows) × (rest : Rows) × ((rows
        ≡ idle ++ (w.start_ts, some "circuit_open") ∷ (more ++ rest))
      × (All (λ r. ¬ IsOpen r.1) idle
          × (All (λ r. IsOpen r.1) more × EndsAt stop w ws (λ others. Runs stop others ws) rest)))

-- the rows after the first one of a run that started at `a`
abbrev InRun : ℕ → ℕ → Rows → List DowntimeWindow → Type 0
InRun stop a rows [] = ⊥
InRun stop a rows (w ∷ ws) =
    (more : Rows) × (rest : Rows) × ((w.start_ts ≡ a)
      × ((rows ≡ more ++ rest)
          × (All (λ r. IsOpen r.1) more × EndsAt stop w ws (λ others. Runs stop others ws) rest)))

idle-Runs :
    (stop t : ℕ) (kind : Option String) (rows : Rows) (ws : List DowntimeWindow)
    → ¬ IsOpen kind
    → Runs stop rows ws
    → Runs stop ((t, kind) ∷ rows) ws
idle-Runs stop t kind rows [] shut h = (shut, h)
idle-Runs stop t kind rows (w ∷ ws) shut (idle, more, rest, (e, (before, runs))) =
    ((t, kind) ∷ idle, more, rest, (ap (λ r. (t, kind) ∷ r) e, ((shut, before), runs)))

more-InRun :
    (stop a t : ℕ) (kind : Option String) (rows : Rows) (ws : List DowntimeWindow)
    → IsOpen kind
    → InRun stop a rows ws
    → InRun stop a ((t, kind) ∷ rows) ws
more-InRun stop a t kind rows [] is h = h
more-InRun stop a t kind rows (w ∷ ws) is (more, rest, (same, (e, (all, ends)))) =
    ((t, kind) ∷ more, rest, (same, (ap (λ r. (t, kind) ∷ r) e, ((is, all), ends))))

opens-Runs :
    (stop t : ℕ) (kind : Option String) (rows : Rows) (ws : List DowntimeWindow)
    → IsOpen kind
    → InRun stop t rows ws
    → Runs stop ((t, kind) ∷ rows) ws
opens-Runs stop t kind rows [] is h = absurd h
opens-Runs stop t kind rows (w ∷ ws) is (more, rest, (same, (e, (all, ends)))) =
    ([], more, rest, (rw (same, is, e) refl, (tt, (all, ends))))

closed-InRun :
    (a t stop : ℕ) (kind : Option String) (rows : Rows) (ws : List DowntimeWindow)
    → ¬ IsOpen kind
    → Runs stop rows ws
    → InRun stop a ((t, kind) ∷ rows) (closed_window a t ∷ ws)
unfolding closed_window
closed-InRun a t stop kind rows ws shut h = (
  [],
  (t, kind) ∷ rows,
  (refl, (refl, (tt, inr (t, kind, rows, (refl, (shut, (refl, (refl, h)))))))),
)

-- the windows, before a run and within one
abbrev RunsFrom : Option ℕ → ℕ → Rows → List DowntimeWindow → Type 0
RunsFrom none stop rows ws = Runs stop rows ws
RunsFrom (some a) stop rows ws = InRun stop a rows ws

from-Runs :
    (run : Option ℕ) (stop : ℕ) (rows : Rows) → RunsFrom run stop rows (windows_from run rows stop)
unfolding windows_from
from-Runs none stop [] = tt
from-Runs (some a) stop [] = ([], [], (refl, (refl, (tt, inl (refl, (refl, (refl, refl)))))))
from-Runs none stop ((t, kind) ∷ rows) = elim (Bool-cases (is_circuit_open kind)) [
  | inl k ↦ subst (Runs stop ((t, kind) ∷ rows)) (sym (open_row none t stop kind rows k)) (
      opens-Runs stop t kind rows (windows_from (some t) rows stop) ((is_circuit_open_iff kind).0 k)
        (from-Runs (some t) stop rows))
  | inr k ↦ subst (Runs stop ((t, kind) ∷ rows)) (sym (idle_row t stop kind rows k)) (
      idle-Runs stop t kind rows (windows_from none rows stop) (other_kind kind k)
        (from-Runs none stop rows))
]
from-Runs (some a) stop ((t, kind) ∷ rows) = elim (Bool-cases (is_circuit_open kind)) [
  | inl k ↦ subst (InRun stop a ((t, kind) ∷ rows)) (sym (open_row (some a) t stop kind rows k)) (
      more-InRun stop a t kind rows (windows_from (some a) rows stop)
        ((is_circuit_open_iff kind).0 k) (from-Runs (some a) stop rows))
  | inr k ↦ subst (InRun stop a ((t, kind) ∷ rows)) (sym (closing_row a t stop kind rows k)) (
      closed-InRun a t stop kind rows (windows_from none rows stop) (other_kind kind k)
        (from-Runs none stop rows))
]

-- The downtime windows are exactly the maximal runs of rows whose kind is "circuit_open": each starts
-- at the first row of a run and ends at the first other row after it, or is open when there is none,
-- and lasts from its start to its end or the end of the period; no such row is outside of them. For
-- rows in the order of their times, the windows also follow each other without an overlap.
pub windows_correct :
    (rows : Rows) (stop : ℕ)
    → Ascending 0 rows
    → Runs stop rows (derive_circuit_open_windows rows stop)
      × Chained 0 stop (derive_circuit_open_windows rows stop)
unfolding derive_circuit_open_windows
windows_correct rows stop s =
    (from-Runs none stop rows, from-Chained none 0 stop rows s (λ a p. ground (arith, p)))

count-sub :
    (p q : ApiRequest → Bool) (rs : List ApiRequest)
    → ((r : ApiRequest) → p r ≡ true → q r ≡ true)
    → length (select p rs) ≤ length (select q rs)
count-sub p q [] h = omega arith
count-sub p q (r ∷ rs) h = elim (Bool-cases (p r)) [
  | inl e ↦ ground (arith, e, h r e, count-sub p q rs h)
  | inr e ↦ ground (arith, e, count-sub p q rs h)
]

select-le : (q : ApiRequest → Bool) (rs : List ApiRequest) → length (select q rs) ≤ length rs
select-le q [] = omega arith
select-le q (r ∷ rs) = ground (arith, select-le q rs)

-- The successes are among the counted rows and these among all rows of the period.
pub availability-counts :
    (table : List ApiRequest) (model_id : Text) (window now : ℕ)
    → ((compute_availability table model_id window now).successes
        ≤ (compute_availability table model_id window now).denominator)
      × ((compute_availability table model_id window now).denominator
          ≤ (compute_availability table model_id window now).total_requests)
unfolding compute_availability
availability-counts table model_id window now = (
  count-sub is_success is_in_denom (select (is_in_period model_id (now - window) now) table)
      (λ r e. ground (arith, e)),
  select-le is_in_denom (select (is_in_period model_id (now - window) now) table),
)
