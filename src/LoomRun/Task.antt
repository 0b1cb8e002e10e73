-- ===== src/LoomRun/Task.antt =====
-- `_run_loom_generation_task` of workbench_generations.py: the loop over the upstream's events.
use acs_base_model_api.Base.{
  ℕ, zero, suc, ◌-◌, Bool, true, false, ◌||◌, Option, none, some, List, [], ◌∷◌, ◌++◌, leb, nat_eq,
  ◌==◌, if◌then◌else◌,
}
use acs_base_model_api.Base.Text.{Text, codes}
use acs_base_model_api.Base.Json.{ℤ, pos, negsuc}
use acs_base_model_api.Workbench.{Message, exception, internal, StatusInfo}
use acs_base_model_api.Workbench.Task.{error_code, message_of, get_or, or_else}
use acs_base_model_api.Workbench.Live.{update_at}
use acs_base_model_api.LoomRun.{
  loom_chunk, status_frame, error_frame, LoomGenerationState, init, broadcast,
}
use acs_base_model_api.LoomRun.Chunk.{IntLibrary, LoomAbsorbed, absorb_loom_chunk}

-- an event of `stream_post_with_status`; an error's status 0 is a failure of the network
pub data Event : Type 0 where
  status_event : StatusInfo → Event
  chunk_event : (bytes : Text) (usage : Option (ℕ × ℕ)) (status_code : Option ℕ) → Event
  error_event : (bytes : Text) (status_code : Option ℕ) (upstream_kind : Option Text) → Event
  stream_error : Event

pub record LoomTask : Type 0 where
  pub state : LoomGenerationState
  pub upstream_status : ℕ
  pub upstream_error_kind : Option Text
  pub upstream_error_msg : Option Message
  pub saw_done : Bool
  pub looping : Bool

unfoldable pub start_task : ℕ → LoomTask
unfolding init
start_task n = record {
  state = init n;
  upstream_status = 200;
  upstream_error_kind = none;
  upstream_error_msg = none;
  saw_done = false;
  looping = true;
}

unfoldable pub branch_text : ℕ → List Text → Text
branch_text i [] = []
branch_text zero (t ∷ branches) = t
branch_text (suc i) (t ∷ branches) = branch_text i branches

-- the branch at `j` grows, and the frame for `idx` has its whole text
unfoldable pub deliver : (j : ℕ) → (idx : ℤ) → Text → LoomGenerationState → LoomGenerationState
unfolding broadcast branch_text update_at
deliver j idx delta s =
    let branches = update_at j (λ t. t ++ delta) s.branches in
    broadcast (loom_chunk idx (branch_text j branches)) (record s { branches = branches })

-- One slot. An index from n on is skipped; a negative one counts from the end of the list, as in
-- Python, and `none` is the IndexError before its start.
unfoldable pub deliver_slot : ℤ → Text → LoomGenerationState → Option LoomGenerationState
unfolding deliver
deliver_slot (pos i) delta s = if leb s.n i then some s else some (deliver i (pos i) delta s)
deliver_slot (negsuc k) delta s =
    if leb s.n k then none else some (deliver (s.n - suc k) (negsuc k) delta s)

-- the loop over `by_index`, and whether it raised
unfoldable pub deliver_slots : List (ℤ × Text) → LoomGenerationState → LoomGenerationState × Bool
unfolding deliver_slot
deliver_slots [] s = (s, false)
deliver_slots ((idx, delta) ∷ slots) s = elim (deliver_slot idx delta s) [
  | none ↦ (s, true)
  | some next ↦ deliver_slots slots next
]

-- `except Exception`
unfoldable pub on_exception : LoomTask → LoomTask
unfolding broadcast
on_exception t = record t {
  upstream_status = 500;
  upstream_error_kind = some (codes "internal_error");
  upstream_error_msg = some exception;
  state = broadcast (error_frame 500 (codes "internal_error") internal) t.state;
  looping = false;
}

unfoldable pub delivered : LoomGenerationState × Bool → LoomTask → LoomTask
unfolding on_exception
delivered (s, false) t = record t { state = s }
delivered (s, true) t = on_exception (record t { state = s })

unfoldable pub absorbed : Option LoomAbsorbed → LoomTask → LoomTask
unfolding on_exception delivered deliver_slots
absorbed none t = on_exception t
absorbed (some (slots, done)) t =
    delivered (deliver_slots slots t.state) (record t { saw_done = done || t.saw_done })

unfoldable pub on_chunk :
    IntLibrary → Text → (usage : Option (ℕ × ℕ)) → (status_code : Option ℕ) → LoomTask → LoomTask
unfolding absorbed absorb_loom_chunk
on_chunk lib bytes usage status_code t = absorbed (absorb_loom_chunk lib bytes) (record t {
  upstream_status = get_or t.upstream_status status_code;
  state = record t.state { usage = or_else usage t.state.usage };
})

unfoldable pub on_error :
    IntLibrary → Text → (status_code : Option ℕ) → Option Text → LoomTask → LoomTask
unfolding broadcast error_code message_of
on_error lib bytes status_code upstream_kind t =
    let code = get_or 500 status_code in
    let shown_status = if code == 0 then 502 else code in
    let kind = error_code code upstream_kind in
    let message = message_of lib.json code (lib.json.loads bytes) in
    record t {
      upstream_status = shown_status;
      upstream_error_kind = some kind;
      upstream_error_msg = some message;
      state = broadcast (error_frame shown_status kind message) t.state;
      looping = false;
    }

-- the body of the `async for`
unfoldable pub on_event : IntLibrary → Event → LoomTask → LoomTask
unfolding broadcast on_chunk on_error on_exception
on_event lib (status_event info) t = record t {
  state = broadcast (status_frame info) (record t.state { last_status = some info });
}
on_event lib (chunk_event bytes usage code) t = on_chunk lib bytes usage code t
on_event lib (error_event bytes code kind) t = on_error lib bytes code kind t
on_event lib stream_error t = on_exception t

-- one round, with the check of `cancel_requested` before the event is looked at
unfoldable pub next_event : IntLibrary → Event → LoomTask → LoomTask
unfolding on_event
next_event lib e t =
    if t.state.cancel_requested then record t { looping = false } else on_event lib e t
