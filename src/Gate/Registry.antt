-- ===== src/Gate/Registry.antt =====
-- `_get_key_semaphore` of base_model_wrapper/src/wrapper/routes/api.py: the gates of
-- `app_state.key_semaphores`.
use acs_base_model_api.Base.{ℕ, none, some, nat_eq}
use acs_base_model_api.Base.Dict.{Dict, get, set}
use acs_base_model_api.Gate.{Gate, new_gate, max_inflight_per_key, max_queued_per_key}

unfoldable pub get_key_semaphore : ℕ → Dict ℕ Gate → Gate × Dict ℕ Gate
unfolding new_gate
get_key_semaphore key_id gates = elim (get key_id gates) [
  | some gate ↦ (gate, gates)
  | none ↦
      let gate = new_gate max_inflight_per_key max_queued_per_key in (gate, set key_id gate gates)
]
