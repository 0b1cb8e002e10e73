-- ===== src/Availability/Tests.antt =====
-- Concrete request rows of one model.
use acs_base_model_api.Base.{ℕ, false, String, Option, none, some, List, [], ◌∷◌, arith}
use acs_base_model_api.Base.Text.{codes}
use acs_base_model_api.Availability.{ApiRequest, derive_circuit_open_windows}
use acs_base_model_api.Availability.Windows.{Runs, Chained, windows_correct}

abbrev timed : List (ℕ × Option String)
timed =
    (10, none)
    ∷ (20, some "circuit_open")
    ∷ (30, some "circuit_open")
    ∷ (45, none)
    ∷ (60, some "circuit_open")
    ∷ []

abbrev table : List ApiRequest
table =
    record { model = some (codes "m"); ts = 50; status = 200; cold_boot = false; error_kind = none }
    ∷ record {
      model = some (codes "m");
      ts = 60;
      status = 503;
      cold_boot = false;
      error_kind = some "circuit_open";
    }
    ∷ record {
      model = some (codes "m");
      ts = 70;
      status = 429;
      cold_boot = false;
      error_kind = none;
    }
    ∷ []

windows_correct_example :
    Runs 90 timed (derive_circuit_open_windows timed 90)
    × Chained 0 90 (derive_circuit_open_windows timed 90)
windows_correct_example =
    windows_correct timed 90
      (omega arith, (omega arith, (omega arith, (omega arith, (omega arith, tt)))))
