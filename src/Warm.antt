-- ===== src/Warm.antt =====
-- Whether a model has a warm container: warm_state.py, `_scaledown_window_for_key` and
-- `_model_is_cold` of routes/api.py, and `_resolve_model` of model_resolution.py, in
-- base_model_wrapper/src/wrapper/. Times are in seconds, and the runner counts of Modal are
-- parameters.
pub mod Cold
pub mod Tests
use mathlib.Core.List.{reverse}
use acs_base_model_api.Base.{
  ℕ, ◌-◌, ◌*◌, Bool, true, false, Option, none, some, List, [], ◌∷◌, ltb, leb, is_some,
  if◌then◌else◌,
}
use acs_base_model_api.Base.Dict.{Dict, get, set}
use acs_base_model_api.Base.Text.{Text, codes, strip_prefix}
use acs_base_model_api.Base.Json.{text_equatable}

pub data ModelStatus : Type 0 where
  live : ModelStatus
  staging : ModelStatus
  disabled : ModelStatus

pub record ModelEntry : Type 0 where
  pub model_id : Text
  pub status : ModelStatus
  pub modal_app_name : Text
  pub scaledown_window_s : ℕ
  pub activation_scaledown_window_s : ℕ

-- the part of `app.state` that is read here, with the runner cache of modal_ops.py
pub record AppState : Type 0 where
  pub models : Dict Text ModelEntry
  pub default_model_id : Text
  pub last_completion_at : Dict Text ℕ
  pub runners_cache : Dict Text ℕ

abbrev pub modal_scaledown_window : ℕ
modal_scaledown_window = 30 * 60

abbrev pub activation_key_suffix : Text
activation_key_suffix = codes "::activation"

-- what stands before the suffix, if the key ends with it
unfoldable pub before_suffix : Text → Text → Option Text
unfolding strip_prefix
before_suffix suffix key = elim (strip_prefix (reverse suffix) (reverse key)) [
  | none ↦ none
  | some rest ↦ some (reverse rest)
]

unfoldable pub scaledown_window_for_key : AppState → Text → ℕ
unfolding before_suffix get
scaledown_window_for_key app key = elim (before_suffix activation_key_suffix key) [
  | none ↦ elim (get key app.models) [
    | none ↦ modal_scaledown_window
    | some entry ↦ entry.scaledown_window_s
  ]
  | some model_id ↦ elim (get model_id app.models) [
    | none ↦ modal_scaledown_window
    | some entry ↦ entry.activation_scaledown_window_s
  ]
]

-- cold when the model has not completed a request, or not within its window
unfoldable pub cold_since : (now window : ℕ) → Option ℕ → Bool
cold_since now window none = true
cold_since now window (some last_at) = leb window (now - last_at)

unfoldable pub model_is_cold : AppState → (now : ℕ) → Text → Bool
unfolding cold_since scaledown_window_for_key get
model_is_cold app now [] = false
model_is_cold app now (c ∷ key) =
    cold_since now (scaledown_window_for_key app (c ∷ key)) (get (c ∷ key) app.last_completion_at)

-- `modal_ops.mark_runner_warm` of the model's app
unfoldable pub mark_runner : Option ModelEntry → Dict Text ℕ → Dict Text ℕ
unfolding set
mark_runner none cache = cache
mark_runner (some entry) cache = elim entry.modal_app_name [
  | [] ↦ cache
  | c ∷ name ↦ set (c ∷ name) 1 cache
]

unfoldable pub mark_model_warm : AppState → (now : ℕ) → Text → AppState
unfolding mark_runner get set
mark_model_warm app now [] = app
mark_model_warm app now (c ∷ key) = record app {
  last_completion_at = set (c ∷ key) now app.last_completion_at;
  runners_cache = mark_runner (get (c ∷ key) app.models) app.runners_cache;
}

-- the time heuristic of `_is_model_warm` and `_resolve_warm_flags`
unfoldable pub warm_since : (now : ℕ) → Option ℕ → Bool
warm_since now none = false
warm_since now (some last_at) = ltb (now - last_at) modal_scaledown_window

-- `count` is the runner count of the app, or none when it is unknown or cannot be read
unfoldable pub warm_by : (now : ℕ) → Option ℕ → (count : Option ℕ) → Bool
unfolding warm_since
warm_by now last_at (some n) = ltb 0 n
warm_by now last_at none = warm_since now last_at

unfoldable pub is_model_warm : (Text → Option ℕ) → ModelEntry → Option ℕ → (now : ℕ) → Bool
unfolding warm_by
is_model_warm runner_count entry last_at now = elim entry.modal_app_name [
  | [] ↦ warm_since now last_at
  | c ∷ name ↦ warm_by now last_at (runner_count (c ∷ name))
]

-- the flags of the live models, in the order of the registry
unfoldable pub resolve_warm_flags :
    (Text → Option ℕ) → Dict Text ModelEntry → Dict Text ℕ → (now : ℕ) → Dict Text Bool
unfolding is_model_warm get
resolve_warm_flags runner_count [] last_at_map now = []
resolve_warm_flags runner_count ((key, entry) ∷ registry) last_at_map now =
    let rest = resolve_warm_flags runner_count registry last_at_map now in
    elim entry.status [
      | live ↦
          (entry.model_id, is_model_warm runner_count entry (get entry.model_id last_at_map) now)
          ∷ rest
      | _ ↦ rest
    ]

-- an empty or absent name stands for the default
unfoldable pub requested_id : AppState → Option Text → Text
requested_id app (some (c ∷ name)) = c ∷ name
requested_id app _ = app.default_model_id

unfoldable pub enabled : Text → ModelEntry → Option (Text × ModelEntry)
enabled model_id entry = elim entry.status [ disabled ↦ none | _ ↦ some (model_id, entry) ]

unfoldable pub resolve_model : AppState → Option Text → Option (Text × ModelEntry)
unfolding requested_id enabled get
resolve_model app requested = elim (get (requested_id app requested) app.models) [
  | none ↦ none
  | some entry ↦ enabled (requested_id app requested) entry
]
