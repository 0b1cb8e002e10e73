-- ===== src/Workbench/Live.antt =====
-- `_gen_live` of workbench_generations.py, and the steps of a generation with its subscribers.
use acs_base_model_api.Base.{
  ℕ, zero, suc, ◌-◌, ◌≡◌, Bool, true, false, Option, none, some, List, [], ◌∷◌, ◌++◌, leb, nat_eq,
  if◌then◌else◌,
}
use acs_base_model_api.Base.Lists.{length, drop}
use acs_base_model_api.Base.Text.{Text}
use acs_base_model_api.Base.Json.{ℤ, pos, negsuc}
use acs_base_model_api.Workbench.{
  RunStatus, running, Frame, replay_frame, done_frame, StatusInfo, Phase, live, ended, closed,
  Subscriber, GenerationState, new_state,
}
use acs_base_model_api.Workbench.Absorb.{JsonLibrary}
use acs_base_model_api.Workbench.Task.{Task, Event, start_task, next_event}
use acs_base_model_api.Workbench.Finish.{Settings, finish_task}

abbrev pub is_running : RunStatus → Bool
is_running running = true
is_running _ = false

-- `frame.startswith(b"event: done")`: an upstream's chunk is taken to start with its data
abbrev pub is_done : Frame → Bool
is_done (done_frame status p c message code) = true
is_done _ = false

-- the offset from which the text is replayed: `since` where it lies within the text; a negative one
-- counts from the end, as in a Python slice
unfoldable pub replay_start : Option ℤ → Text → ℕ
replay_start none text = 0
replay_start (some (negsuc k)) text = length text - suc k
replay_start (some (pos since)) text = if leb since (length text) then since else 0

-- the phase that a running generation was last in
unfoldable pub last_status : RunStatus → Option Frame → List Frame
last_status running (some f) = f ∷ []
last_status _ _ = []

-- the generator up to its loop: it subscribes and sends what there is
unfoldable pub open_live : Option ℤ → GenerationState → Subscriber
unfolding replay_start last_status
open_live since s =
    let start = replay_start since s.completion_text in
    record {
      queue = [];
      start = start;
      yielded =
          replay_frame (drop start s.completion_text) (length s.completion_text)
          ∷ last_status s.status s.last_status_frame;
      phase = live;
    }

unfoldable pub subscribe : Option ℤ → GenerationState → GenerationState
unfolding open_live
subscribe since s = record s { subscribers = s.subscribers ++ open_live since s ∷ [] }

unfoldable pub done_of : GenerationState → Frame
done_of s = elim s.usage [
  | none ↦ done_frame s.status 0 0 s.error s.error_kind
  | some (p, c) ↦ done_frame s.status p c s.error s.error_kind
]

-- A round of `while True`. With an empty queue it ends once the generation has, and else waits for a
-- frame; keepalive comments are left out.
unfoldable pub loop_round :
    GenerationState → (start : ℕ) → (yielded queue : List Frame) → Subscriber
unfolding done_of
loop_round s start yielded [] =
    if is_running s.status
    then record { queue = []; start = start; yielded = yielded; phase = live }
    else record { queue = []; start = start; yielded = yielded ++ done_of s ∷ []; phase = ended }
loop_round s start yielded (f ∷ queue) = record {
  queue = queue;
  start = start;
  yielded = yielded ++ f ∷ [];
  phase = if is_done f then ended else live;
}

unfoldable pub round_in : GenerationState → Phase → Subscriber → Subscriber
unfolding loop_round
round_in s live l = loop_round s l.start l.yielded l.queue
round_in s ended l = l
round_in s closed l = l

unfoldable pub live_round : GenerationState → Subscriber → Subscriber
unfolding round_in
live_round s l = round_in s l.phase l

abbrev pub close_phase : Phase → Phase
close_phase live = closed
close_phase ended = ended
close_phase closed = closed

-- the client goes away: the `finally` unsubscribes
unfoldable pub disconnect : Subscriber → Subscriber
disconnect l = record l { phase = close_phase l.phase }

unfoldable pub update_at {ℓ} : {A : Type ℓ} → ℕ → (A → A) → List A → List A
update_at i f [] = []
update_at zero f (x ∷ xs) = f x ∷ xs
update_at (suc i) f (x ∷ xs) = x ∷ update_at i f xs

abbrev with_state : Task → GenerationState → Task
with_state t s = record t { state = s }

-- One step of the task or of a subscriber, from one await to the next.
pub data Step (lib : JsonLibrary) (settings : Settings) (t : Task) : Task → Type 0 where
  event : (e : Event) → t.looping ≡ true → Step lib settings t (next_event lib e t)
  exhausted : t.looping ≡ true → Step lib settings t (record t { looping = false })
  cancel : Step lib settings t (with_state t (record t.state { cancel_requested = true }))
  finish :
      (was_cancelled : Bool)
      → (was_cancelled ≡ true → t.state.cancel_requested ≡ true)
      → t.looping ≡ false
      → is_running t.state.status ≡ true
      → Step lib settings t (finish_task settings was_cancelled t)
  arrive : (since : Option ℤ) → Step lib settings t (with_state t (subscribe since t.state))
  round :
      (i : ℕ)
      → Step lib settings t (
          with_state t
            (record t.state { subscribers = update_at i (live_round t.state) t.state.subscribers }))
  leave :
      (i : ℕ)
      → Step lib settings t (
          with_state t
            (record t.state { subscribers = update_at i disconnect t.state.subscribers }))

pub data Reach (lib : JsonLibrary) (settings : Settings) : Task → Type 0 where
  fresh : (sending : StatusInfo) (now : ℕ) → Reach lib settings (start_task sending now new_state)
  later : {t u : Task} → Reach lib settings t → Step lib settings t u → Reach lib settings u
