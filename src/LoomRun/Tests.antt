-- ===== src/LoomRun/Tests.antt =====
-- A generation of two branches, whose upstream sends one chunk for the second of them, with a
-- subscriber that comes before the chunk and one that comes after it.
use acs_base_model_api.Base.{◌≡◌, refl, true, false, none, some, [], ◌∷◌, arith}
use acs_base_model_api.Base.Lists.{All}
use acs_base_model_api.Base.Text.{codes}
use acs_base_model_api.Base.Json.{int, pos, str, arr, obj, end, item, stop, field}
use acs_base_model_api.Workbench.Absorb.{parsed}
use acs_base_model_api.LoomRun.Chunk.{IntLibrary, absorb_loom_chunk}
use acs_base_model_api.LoomRun.Task.{
  LoomTask, Event, chunk_event, start_task, branch_text, next_event,
}
use acs_base_model_api.LoomRun.Finish.{LoomSettings, finish_task, created_node_ids, terminal_status}
use acs_base_model_api.LoomRun.Live.{
  Reach, fresh, later, arrive, event, exhausted, finish, subscribe,
}
use acs_base_model_api.LoomRun.Whole.{ShowsIn, branches-Shown}

-- every payload is one choice of index 1 with the text "hi"
abbrev lib : IntLibrary
lib = record {
  json = record {
    loads = λ payload. parsed (
        obj (
          field (codes "choices")
            (arr (
              item
                (obj (
                  field (codes "index") (int (pos 1))
                    (field (codes "text") (str (codes "hi")) stop)))
                end))
            stop));
    is_zero = λ spelled. false;
  };
  int_of = λ value. none;
}

abbrev settings : LoomSettings
settings = record {
  loom_id = 1;
  parent_id = none;
  model_id = codes "base";
  seed = none;
  base_position = some (pos 4);
  first_id = 10;
  now = 7;
  commits = true;
  fails_after = none;
  caller_key_id = 1;
  caller_exists = true;
  today = record { year = 2026; month = 5; day = 1 };
}

abbrev chunk : Event
chunk = chunk_event (codes "data: {}") (some (3, 1)) (some 200)

abbrev watched : LoomTask
watched = record (start_task 2) { state = subscribe (start_task 2).state }

abbrev chunked : LoomTask
chunked = next_event lib chunk watched

abbrev rewatched : LoomTask
rewatched = record chunked { state = subscribe chunked.state }

abbrev exhausted_task : LoomTask
exhausted_task = record rewatched { looping = false }

abbrev finished : LoomTask
finished = finish_task settings false exhausted_task

finished-Reach : Reach lib settings 2 finished
unfolding start_task next_event finish_task subscribe
finished-Reach =
    later (later (later (later (later fresh arrive) (event chunk refl)) arrive) (exhausted refl))
      (finish false (λ e. e) refl refl)

finished_text : branch_text 1 finished.state.branches ≡ codes "hi"
unfolding start_task next_event finish_task subscribe absorb_loom_chunk branch_text
finished_text = refl

finished_ids : created_node_ids settings false exhausted_task ≡ 10 ∷ []
unfolding start_task next_event subscribe absorb_loom_chunk created_node_ids terminal_status
finished_ids = refl

branches-Shown_example :
    All
      (λ l.
        ShowsIn 2 1 (branch_text 1 finished.state.branches) l.replayed l.yielded l.queue l.phase)
      finished.state.subscribers
branches-Shown_example = branches-Shown lib settings 2 1 finished (omega arith) finished-Reach
