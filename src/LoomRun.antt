-- ===== src/LoomRun.antt =====
-- base_model_wrapper/src/wrapper/workbench_generations.py: the generations of the loom, one stream of
-- the upstream with n branches. This file has `LoomGenerationState`; the children have the chunks of
-- the stream, the task, its final writes and the generator of a subscriber. Only the texts of the
-- branches are modelled, not their logprobs.
pub mod Chunk
pub mod Finish
pub mod Live
pub mod Shown
pub mod Events
pub mod Follow
pub mod Rounds
pub mod Whole
pub mod Tests
pub mod Task
use acs_base_model_api.Base.{
  ℕ, zero, suc, Bool, false, Option, none, some, List, [], ◌∷◌, ◌++◌, map,
}
use acs_base_model_api.Base.Text.{Text}
use acs_base_model_api.Base.Json.{ℤ}
use acs_base_model_api.Workbench.{
  RunStatus, running, Message, StatusInfo, Phase, live, ended, closed,
}

-- the frames of the SSE stream; a `loom_chunk` has the whole text of its branch
pub data LoomFrame : Type 0 where
  loom_chunk : (index : ℤ) (text : Text) → LoomFrame
  status_frame : StatusInfo → LoomFrame
  error_frame : (status : ℕ) (code : Text) (message : Message) → LoomFrame
  done_frame :
      (status : RunStatus) (prompt_tokens completion_tokens : ℕ) (error_message : Option Message)
      (code : Option Text) (node_ids : List ℕ)
      → LoomFrame

-- One `_loom_gen_live`: `replayed` is how many branches its replay is past.
pub record LoomSubscriber : Type 0 where
  pub queue : List LoomFrame
  pub replayed : ℕ
  pub yielded : List LoomFrame
  pub phase : Phase

pub record LoomGenerationState : Type 0 where
  pub n : ℕ
  pub branches : List Text
  pub subscribers : List LoomSubscriber
  pub status : RunStatus
  pub error : Option Message
  pub error_kind : Option Text
  pub usage : Option (ℕ × ℕ)
  pub cancel_requested : Bool
  pub last_status : Option StatusInfo

unfoldable pub empty_branches : ℕ → List Text
empty_branches zero = []
empty_branches (suc n) = [] ∷ empty_branches n

unfoldable pub init : ℕ → LoomGenerationState
unfolding empty_branches
init n = record {
  n = n;
  branches = empty_branches n;
  subscribers = [];
  status = running;
  error = none;
  error_kind = none;
  usage = none;
  cancel_requested = false;
  last_status = none;
}

unfoldable pub push_live : LoomFrame → Phase → List LoomFrame → List LoomFrame
push_live f live queue = queue ++ f ∷ []
push_live f ended queue = queue
push_live f closed queue = queue

-- `put_nowait`, where the queue is still subscribed
unfoldable pub put_nowait : LoomFrame → LoomSubscriber → LoomSubscriber
unfolding push_live
put_nowait f l = record l { queue = push_live f l.phase l.queue }

unfoldable pub broadcast : LoomFrame → LoomGenerationState → LoomGenerationState
unfolding put_nowait
broadcast f s = record s { subscribers = map (put_nowait f) s.subscribers }

unfoldable pub mark_done :
    RunStatus → Option Message → Option Text → LoomGenerationState → LoomGenerationState
mark_done status error error_kind s = record s {
  status = status;
  error = error;
  error_kind = error_kind;
}
