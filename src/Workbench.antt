-- ===== src/Workbench.antt =====
-- base_model_wrapper/src/wrapper/workbench_generations.py: the single-pane generations of the
-- workbench. This file has `GenerationState`, the fan-out of one generation to its subscribers; the
-- children have the chunks of the stream, the task that drives it, its final writes and the
-- generator of a subscriber. A run that requests no logprobs is modelled. Bytes are lists of code
-- points.
pub mod Absorb
pub mod Barrier
pub mod Compare
pub mod Drain
pub mod Finish
pub mod History
pub mod Frames
pub mod Generator
pub mod LaneSteps
pub mod Lanes
pub mod Live
pub mod OneSnapshot
pub mod Reader
pub mod Replay
pub mod Task
pub mod Tests
use acs_base_model_api.Base.{ℕ, Bool, true, false, Option, none, some, List, [], ◌∷◌, ◌++◌, map}
use acs_base_model_api.Base.Text.{Text}
use acs_base_model_api.Base.Json.{Json}

pub data RunStatus : Type 0 where
  running : RunStatus
  completed : RunStatus
  cancelled : RunStatus
  failed : RunStatus

-- what an error says: the f-string on a status, the upstream's own words, or an exception
pub data Message : Type 0 where
  friendly : ℕ → Message
  told : Text → Message
  shown : Json → Message
  http_status : ℕ → Message
  internal : Message
  exception : Message

-- the fields of a status event
pub record StatusInfo : Type 0 where
  pub phase : Text
  pub attempt : ℕ
  pub elapsed_ms : ℕ
  pub next_retry_in_s : Option ℕ
  pub stage : Option Text
  pub stage_label : Option Text

-- the frames of the SSE stream to the browser; `chunk_frame` has one of the upstream's, as it came
pub data Frame : Type 0 where
  replay_frame : (text : Text) (cursor : ℕ) → Frame
  status_frame : StatusInfo → Frame
  chunk_frame : Text → Frame
  error_frame : (status : ℕ) (code : Text) (message : Message) → Frame
  done_frame :
      (status : RunStatus) (prompt_tokens completion_tokens : ℕ) (error_message : Option Message)
      (code : Option Text)
      → Frame

-- whether a subscriber's generator runs, has ended, or was closed by its client
pub data Phase : Type 0 where
  live : Phase
  ended : Phase
  closed : Phase

-- One `_gen_live`: its queue is in `subscribers` while it is live. `start` is the offset from which
-- the completion was replayed, and `yielded` has what the client was sent, the oldest first.
pub record Subscriber : Type 0 where
  pub queue : List Frame
  pub start : ℕ
  pub yielded : List Frame
  pub phase : Phase

pub record GenerationState : Type 0 where
  pub completion_text : Text
  pub subscribers : List Subscriber
  pub status : RunStatus
  pub error : Option Message
  pub error_kind : Option Text
  pub usage : Option (ℕ × ℕ)
  pub cancel_requested : Bool
  pub last_status_frame : Option Frame

abbrev pub new_state : GenerationState
new_state = record {
  completion_text = [];
  subscribers = [];
  status = running;
  error = none;
  error_kind = none;
  usage = none;
  cancel_requested = false;
  last_status_frame = none;
}

unfoldable pub push_live : Frame → Phase → List Frame → List Frame
push_live f live queue = queue ++ f ∷ []
push_live f ended queue = queue
push_live f closed queue = queue

-- `put_nowait`, where the queue is still subscribed
unfoldable pub put_nowait : Frame → Subscriber → Subscriber
unfolding push_live
put_nowait f l = record l { queue = push_live f l.phase l.queue }

unfoldable pub broadcast : Frame → GenerationState → GenerationState
unfolding put_nowait
broadcast f s = record s { subscribers = map (put_nowait f) s.subscribers }

unfoldable pub broadcast_status : Frame → GenerationState → GenerationState
unfolding broadcast
broadcast_status f s = broadcast f (record s { last_status_frame = some f })

unfoldable pub mark_done :
    RunStatus → Option Message → Option Text → GenerationState → GenerationState
mark_done status error error_kind s = record s {
  status = status;
  error = error;
  error_kind = error_kind;
}
