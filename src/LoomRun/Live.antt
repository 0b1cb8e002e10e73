-- ===== src/LoomRun/Live.antt =====
-- `_loom_gen_live` of workbench_generations.py, and the steps of a generation with its subscribers.
use acs_base_model_api.Base.{
  ℕ, suc, ◌≡◌, Bool, true, false, Option, none, some, List, [], ◌∷◌, ◌++◌, leb, if◌then◌else◌,
}
use acs_base_model_api.Base.Text.{Text}
use acs_base_model_api.Base.Json.{pos}
use acs_base_model_api.Workbench.{RunStatus, running, StatusInfo, Phase, live, ended, closed}
use acs_base_model_api.Workbench.Absorb.{is_empty}
use acs_base_model_api.Workbench.Live.{is_running, close_phase, update_at}
use acs_base_model_api.LoomRun.{
  LoomFrame, loom_chunk, status_frame, done_frame, LoomSubscriber, LoomGenerationState,
}
use acs_base_model_api.LoomRun.Chunk.{IntLibrary}
use acs_base_model_api.LoomRun.Task.{Event, LoomTask, start_task, branch_text, next_event}
use acs_base_model_api.LoomRun.Finish.{LoomSettings, finish_task}

-- `frame.startswith(b"event: done")`
abbrev pub is_done : LoomFrame → Bool
is_done (done_frame status p c message code ids) = true
is_done _ = false

unfoldable pub last_status : RunStatus → Option StatusInfo → List LoomFrame
last_status running (some info) = status_frame info ∷ []
last_status _ _ = []

-- the generator up to its replay
unfoldable pub open_live : LoomGenerationState → LoomSubscriber
unfolding last_status
open_live s = record {
  queue = [];
  replayed = 0;
  yielded = last_status s.status s.last_status;
  phase = live;
}

unfoldable pub subscribe : LoomGenerationState → LoomGenerationState
unfolding open_live
subscribe s = record s { subscribers = s.subscribers ++ open_live s ∷ [] }

-- the replay of branch `k`
unfoldable pub replay_frames : (k : ℕ) → Text → List LoomFrame
unfolding is_empty
replay_frames k text = if is_empty text then [] else loom_chunk (pos k) text ∷ []

unfoldable pub done_of : LoomGenerationState → LoomFrame
done_of s = elim s.usage [
  | none ↦ done_frame s.status 0 0 s.error s.error_kind []
  | some (p, c) ↦ done_frame s.status p c s.error s.error_kind []
]

-- a round of `while True`; keepalive comments are left out
unfoldable pub loop_round :
    LoomGenerationState → (replayed : ℕ) → (yielded queue : List LoomFrame) → LoomSubscriber
unfolding done_of
loop_round s k yielded [] =
    if is_running s.status
    then record { queue = []; replayed = k; yielded = yielded; phase = live }
    else record { queue = []; replayed = k; yielded = yielded ++ done_of s ∷ []; phase = ended }
loop_round s k yielded (f ∷ queue) = record {
  queue = queue;
  replayed = k;
  yielded = yielded ++ f ∷ [];
  phase = if is_done f then ended else live;
}

-- the next branch of the replay, and after the last one a round of the loop
unfoldable pub round_in : LoomGenerationState → Phase → LoomSubscriber → LoomSubscriber
unfolding loop_round replay_frames branch_text
round_in s live l =
    if leb s.n l.replayed then loop_round s l.replayed l.yielded l.queue else record {
      queue = l.queue;
      replayed = suc l.replayed;
      yielded = l.yielded ++ replay_frames l.replayed (branch_text l.replayed s.branches);
      phase = live;
    }
round_in s ended l = l
round_in s closed l = l

unfoldable pub live_round : LoomGenerationState → LoomSubscriber → LoomSubscriber
unfolding round_in
live_round s l = round_in s l.phase l

-- the client goes away: the `finally` unsubscribes
unfoldable pub disconnect : LoomSubscriber → LoomSubscriber
disconnect l = record l { phase = close_phase l.phase }

abbrev pub with_state : LoomTask → LoomGenerationState → LoomTask
with_state t s = record t { state = s }

-- One step of the task or of a subscriber, from one await to the next.
pub data Step (lib : IntLibrary) (settings : LoomSettings) (t : LoomTask) : LoomTask → Type 0 where
  event : (e : Event) → t.looping ≡ true → Step lib settings t (next_event lib e t)
  exhausted : t.looping ≡ true → Step lib settings t (record t { looping = false })
  cancel : Step lib settings t (with_state t (record t.state { cancel_requested = true }))
  finish :
      (was_cancelled : Bool)
      → (was_cancelled ≡ true → t.state.cancel_requested ≡ true)
      → t.looping ≡ false
      → is_running t.state.status ≡ true
      → Step lib settings t (finish_task settings was_cancelled t)
  arrive : Step lib settings t (with_state t (subscribe t.state))
  round :
      (i : ℕ)
      → Step lib settings t (
          with_state t
            (record t.state { subscribers = update_at i (live_round t.state) t.state.subscribers }))
  leave :
      (i : ℕ)
      → Step lib settings t (
          with_state t
            (record t.state { subscribers = update_at i disconnect t.state.subscribers }))

-- the states of a generation of n branches
pub data Reach (lib : IntLibrary) (settings : LoomSettings) (n : ℕ) : LoomTask → Type 0 where
  fresh : Reach lib settings n (start_task n)
  later : {t u : LoomTask} → Reach lib settings n t → Step lib settings t u → Reach lib settings n u
