-- ===== src/Workbench/Tests.antt =====
-- A generation of one chunk, with a subscriber that comes before it and one that comes after, and a
-- Compare run of two lanes.
use acs_base_model_api.Base.{ℕ, ◌≡◌, refl, true, false, none, some, List, [], ◌∷◌, ◌≤◌}
use acs_base_model_api.Base.Lists.{All}
use acs_base_model_api.Base.Text.{Text, codes}
use acs_base_model_api.Base.Json.{null, int, pos, str, arr, obj, end, item, stop, field}
use acs_base_model_api.Workbench.{StatusInfo, RunStatus, running, completed, failed, new_state}
use acs_base_model_api.Workbench.Absorb.{JsonLibrary, parsed, absorb_chunk_text}
use acs_base_model_api.Workbench.Task.{Task, Event, chunk_event, start_task, next_event}
use acs_base_model_api.Workbench.Finish.{Settings, finish_task}
use acs_base_model_api.Workbench.Live.{
  is_running, subscribe, Reach, fresh, later, event, exhausted, finish, arrive,
}
use acs_base_model_api.Workbench.Replay.{ReadsIn, subscribers-Read}
use acs_base_model_api.Workbench.Compare.{
  ChatGeneration, assemble, any_running, read_barrier, insert_snapshot, has_run, post_snapshot,
  SnapshotRow,
}
use acs_base_model_api.Workbench.Lanes.{
  Pc, Lane, Batch, at_pc, streaming, left, commit, bail, read, write, Reach as BatchReach, start,
  then_step, then_post,
}
use acs_base_model_api.Workbench.OneSnapshot.{
  FromRun, WasInserted, snapshot-AtMostOne, snapshot-Written,
}
use acs_base_model_api.Workbench.History.{count_run}
use acs_base_model_api.Workbench.Drain.{Drains, subscribers-Drain}

-- every payload is one choice with the text "hi"
abbrev lib : JsonLibrary
lib = record {
  loads = λ payload. parsed (
      obj (
        field (codes "choices")
          (arr (item (obj (field (codes "text") (str (codes "hi")) stop)) end)) stop));
  is_zero = λ spelled. false;
}

abbrev settings : Settings
settings = record {
  count_completion = λ text. some 1;
  persists = true;
  commits = true;
  persist_session_state = true;
  prompt = codes "Say";
  caller_key_id = 1;
  caller_exists = true;
  today = record { year = 2026; month = 5; day = 1 };
}

abbrev sending : StatusInfo
sending = record {
  phase = codes "sending";
  attempt = 0;
  elapsed_ms = 0;
  next_retry_in_s = none;
  stage = none;
  stage_label = none;
}

abbrev bytes : Text
bytes = codes "data: {}"

abbrev chunk : Event
chunk = chunk_event bytes (some (3, 1)) (some 200) 5 true

abbrev begun : Task
begun = start_task sending 0 new_state

abbrev watched : Task
watched = record begun { state = subscribe none begun.state }

abbrev chunked : Task
chunked = next_event lib chunk watched

abbrev rewatched : Task
rewatched = record chunked { state = subscribe (some (pos 1)) chunked.state }

abbrev exhausted_task : Task
exhausted_task = record rewatched { looping = false }

abbrev finished : Task
finished = finish_task settings false exhausted_task

finished-Reach : Reach lib settings finished
unfolding start_task next_event finish_task subscribe
finished-Reach =
    later
      (later
        (later (later (later (fresh sending 0) (arrive none)) (event chunk refl))
          (arrive (some (pos 1))))
        (exhausted refl))
      (finish false (λ e. e) refl refl)

finished_text : finished.state.completion_text ≡ codes "hi"
unfolding start_task next_event finish_task subscribe absorb_chunk_text
finished_text = refl

finished_status : finished.state.status ≡ completed
unfolding start_task next_event finish_task subscribe absorb_chunk_text
finished_status = refl

subscribers-Read_example :
    All
      (λ l. ReadsIn lib finished.state.completion_text l.start l.yielded l.queue l.phase)
      finished.state.subscribers
subscribers-Read_example = subscribers-Read lib settings finished finished-Reach

finished_stops : is_running finished.state.status ≡ false
unfolding start_task next_event finish_task subscribe absorb_chunk_text
finished_stops = refl

subscribers-Drain_example :
    All (λ l. Drains lib finished.state l l.phase) finished.state.subscribers
subscribers-Drain_example = subscribers-Drain lib settings finished finished-Reach finished_stops

abbrev lane_row : ℕ → RunStatus → ChatGeneration
lane_row id status = record {
  id = id;
  model = codes "m";
  max_tokens = 5;
  temperature = null;
  prompt_before = some (codes "Say");
  completion_text = some (codes "hi");
  status = status;
  compare_config = obj (field (codes "index") (int (pos id)) stop);
}

abbrev final_rows : List ChatGeneration
final_rows = lane_row 0 completed ∷ lane_row 1 failed ∷ []

abbrev final_row : SnapshotRow
final_row = record { id = 1; ts = 50; session_id = 2; snapshot = assemble 7 final_rows }

abbrev final_batch : Batch
final_batch = record {
  lanes = at_pc (lane_row 0 completed) left ∷ at_pc (lane_row 1 failed) left ∷ [];
  history = record {
    snapshots = final_row ∷ [];
    written = assemble 7 final_rows ∷ [];
    posted = [];
  };
  clean = true;
}

abbrev lane_a : Pc → Lane
lane_a pc = at_pc (lane_row 0 completed) pc

abbrev lane_b : Lane
lane_b = at_pc (lane_row 1 running) streaming

-- the first lane finds the second one running, the second one writes, and a POST comes too late
final_batch-Reach : BatchReach 7 [] final_batch
unfolding any_running read_barrier assemble insert_snapshot post_snapshot has_run
final_batch-Reach = then_post final_row (
    then_step {before = lane_a left ∷ []} {after = []}
      (then_step {before = lane_a left ∷ []} {after = []}
        (then_step {before = lane_a left ∷ []} {after = []}
          (then_step {before = []} {after = lane_b ∷ []}
            (then_step {before = []} {after = lane_b ∷ []}
              (start (lane_row 0 running) (lane_row 1 running ∷ []) (refl, (refl, tt)))
              (commit (lane_row 0 running) (lane_row 0 completed) refl))
            (bail (lane_row 0 completed) refl))
          (commit (lane_row 1 running) (lane_row 1 failed) refl))
        (read (lane_row 1 failed) (assemble 7 final_rows) refl))
      (write (lane_row 1 failed) (assemble 7 final_rows) final_row))

snapshot-AtMostOne_example :
    (count_run 7 final_batch.history.snapshots ≤ 1)
    × All (FromRun 7 final_batch) final_batch.history.snapshots
unfolding has_run
snapshot-AtMostOne_example = snapshot-AtMostOne 7 [] final_batch refl final_batch-Reach

snapshot-Written_example : WasInserted 7 final_batch
unfolding has_run
snapshot-Written_example =
    snapshot-Written 7 [] final_batch refl final_batch-Reach refl (refl, (refl, tt))
