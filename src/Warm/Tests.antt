-- ===== src/Warm/Tests.antt =====
-- A model with an activation engine.
use acs_base_model_api.Base.{◌≡◌, refl, true, [], ◌∷◌}
use acs_base_model_api.Base.Text.{codes}
use acs_base_model_api.Warm.{
  ModelEntry, AppState, live, scaledown_window_for_key, model_is_cold, mark_model_warm,
}

abbrev entry : ModelEntry
entry = record {
  model_id = codes "m";
  status = live;
  modal_app_name = codes "app";
  scaledown_window_s = 1800;
  activation_scaledown_window_s = 600;
}

abbrev app : AppState
app = record {
  models = (codes "m", entry) ∷ [];
  default_model_id = codes "m";
  last_completion_at = [];
  runners_cache = [];
}

activation_window : scaledown_window_for_key app (codes "m::activation") ≡ 600
unfolding scaledown_window_for_key
activation_window = refl

never_served : model_is_cold app 50 (codes "m") ≡ true
unfolding model_is_cold
never_served = refl

activation_cools_first :
    model_is_cold (mark_model_warm app 0 (codes "m::activation")) 700 (codes "m::activation") ≡ true
unfolding model_is_cold mark_model_warm
activation_cools_first = refl
