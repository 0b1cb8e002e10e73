-- ===== src/Warm/Cold.antt =====
-- A model that has served a completion is warm until its own window has passed.
use acs_base_model_api.Base.{ℕ, ◌-◌, ◌≡◌, ◌≢◌, refl, leb, [], ◌∷◌, ap}
use acs_base_model_api.Base.Dict.{get-set_self, get-set_ne}
use acs_base_model_api.Base.Text.{Text}
use acs_base_model_api.Base.Json.{text_equatable}
use acs_base_model_api.Warm.{
  AppState, scaledown_window_for_key, cold_since, model_is_cold, mark_model_warm,
}

-- A model that completes a request at `at` is cold at a time `now` exactly when the scaledown window
-- of its key has passed since `at`.
pub mark_model_warm-Cold :
    (app : AppState) (at now c : ℕ) (key : Text)
    → model_is_cold (mark_model_warm app at (c ∷ key)) now (c ∷ key)
      ≡ leb (scaledown_window_for_key app (c ∷ key)) (now - at)
unfolding model_is_cold mark_model_warm cold_since scaledown_window_for_key
mark_model_warm-Cold app at now c key =
    ap (cold_since now (scaledown_window_for_key app (c ∷ key)))
      (get-set_self (c ∷ key) at app.last_completion_at)

-- It changes nothing for any other key.
pub mark_model_warm_other :
    (app : AppState) (at now : ℕ) (key other : Text)
    → key ≢ other
    → model_is_cold (mark_model_warm app at key) now other ≡ model_is_cold app now other
unfolding model_is_cold mark_model_warm cold_since scaledown_window_for_key
mark_model_warm_other app at now [] other h = refl
mark_model_warm_other app at now (c ∷ key) [] h = refl
mark_model_warm_other app at now (c ∷ key) (d ∷ other) h =
    ap (cold_since now (scaledown_window_for_key app (d ∷ other)))
      (get-set_ne (c ∷ key) (d ∷ other) at app.last_completion_at h)
