-- ===== src/Workbench/Finish.antt =====
-- The `finally` of `_run_generation_task` of workbench_generations.py: the terminal status, the
-- final writes and the done frame.
use acs_base_model_api.Base.{
  ℕ, ◌+◌, ◌/◌, Bool, true, false, not, ◌&&◌, Option, none, some, List, [], ◌∷◌, ◌++◌, leb, ltb,
  nat_eq, ◌==◌, if◌then◌else◌,
}
use acs_base_model_api.Base.Lists.{length}
use acs_base_model_api.Base.Text.{Text, codes}
use acs_base_model_api.Budget.Store.{Date, Db}
use acs_base_model_api.Budget.Usage.{commit_usage}
use acs_base_model_api.Workbench.{
  RunStatus, completed, cancelled, failed, Message, http_status, done_frame, broadcast, mark_done,
}
use acs_base_model_api.Workbench.Absorb.{is_empty}
use acs_base_model_api.Workbench.Task.{Task, get_or}

-- What the task was given, with the token counter of the model, which may fail, and whether the two
-- writes succeed.
pub record Settings : Type 0 where
  pub count_completion : Text → Option ℕ
  pub persists : Bool
  pub commits : Bool
  pub persist_session_state : Bool
  pub prompt : Text
  pub caller_key_id : ℕ
  pub caller_exists : Bool
  pub today : Date

-- `was_cancelled` is `cancel_requested` as the `finally` finds it: a cancellation that comes during
-- its writes does not count
unfoldable pub terminal_status : (was_cancelled : Bool) → Task → RunStatus
terminal_status was_cancelled t = if was_cancelled then cancelled else elim t.upstream_error_msg [
  | some message ↦ failed
  | none ↦ if leb 400 t.upstream_status then failed else completed
]

unfoldable pub error_message : (was_cancelled : Bool) → Task → Option Message
unfolding terminal_status
error_message was_cancelled t = elim (terminal_status was_cancelled t) [
  | failed ↦ some (get_or (http_status t.upstream_status) t.upstream_error_msg)
  | _ ↦ none
]

-- the kind that is shown: only a failed run has one
unfoldable pub shown_kind : RunStatus → Option Text → Option Text
shown_kind failed kind = kind
shown_kind _ kind = none

abbrev pub n_prompt : Task → ℕ
n_prompt t = elim t.state.usage [ none ↦ 0 | some (p, c) ↦ p ]

-- the upstream's count, and else one of the text
unfoldable pub n_completion : Settings → Task → ℕ
unfolding is_empty
n_completion settings t =
    let reported = elim t.state.usage as (λ _. ℕ) [ none ↦ 0 | some (p, c) ↦ c ] in
    if reported == 0 && not (is_empty t.state.completion_text)
    then get_or (length t.state.completion_text / 4)
        (settings.count_completion t.state.completion_text)
    else reported

-- a count that is 0 is stored as NULL
abbrev pub or_null : ℕ → Option ℕ
or_null n = if n == 0 then none else some n

pub record GenerationRow : Type 0 where
  pub status : RunStatus
  pub error_message : Option Message
  pub completion_text : Text
  pub n_prompt_tokens : Option ℕ
  pub n_completion_tokens : Option ℕ

pub record Snapshot : Type 0 where
  pub prompt_before : Text
  pub completion_text : Text
  pub n_completion : ℕ
  pub cancelled : Bool
  pub model_echo : Option Text

pub record RequestRow : Type 0 where
  pub n_prompt : Option ℕ
  pub n_completion : Option ℕ
  pub status : ℕ
  pub error_kind : Option Text

-- the tables that the task writes, and the session's rolling prompt
pub record Tables : Type 0 where
  pub row : Option GenerationRow
  pub snapshots : List Snapshot
  pub session_prompt : Text
  pub usage : Db
  pub requests : List RequestRow

-- whether a snapshot is kept: a completed run has one, and a cancelled one with text
unfoldable pub keeps_snapshot : RunStatus → Text → Bool
unfolding is_empty
keeps_snapshot completed text = true
keeps_snapshot cancelled text = not (is_empty text)
keeps_snapshot _ text = false

unfoldable pub recorded_kind : RunStatus → Option Text → Option Text
recorded_kind failed kind = some (get_or (codes "upstream_error") kind)
recorded_kind _ kind = none

abbrev pub is_completed : RunStatus → Bool
is_completed completed = true
is_completed _ = false

-- the transaction of the final writes
unfoldable pub persist : Settings → (was_cancelled : Bool) → Task → Tables → Tables
unfolding terminal_status error_message n_completion keeps_snapshot recorded_kind
persist settings was_cancelled t tables =
    let status = terminal_status was_cancelled t in
    let text = t.state.completion_text in
    let p = n_prompt t in
    let c = n_completion settings t in
    let keeps = settings.persist_session_state && keeps_snapshot status text in
    let bills = (is_completed status && ltb 0 (p + c)) && settings.commits in
    if not settings.persists then tables else record {
      row = some (record {
        status = status;
        error_message = error_message was_cancelled t;
        completion_text = text;
        n_prompt_tokens = or_null p;
        n_completion_tokens = or_null c;
      });
      snapshots =
          if keeps
          then tables.snapshots
            ++ record {
              prompt_before = settings.prompt;
              completion_text = text;
              n_completion = c;
              cancelled = not t.saw_done;
              model_echo = t.upstream_model_echo;
            }
              ∷ []
          else tables.snapshots;
      session_prompt = if keeps then settings.prompt ++ text else tables.session_prompt;
      usage =
          if bills
          then commit_usage tables.usage settings.today settings.caller_key_id p c
          else tables.usage;
      requests =
          if settings.caller_exists
          then tables.requests
            ++ record {
              n_prompt = or_null p;
              n_completion = or_null c;
              status = t.upstream_status;
              error_kind = recorded_kind status t.upstream_error_kind;
            }
              ∷ []
          else tables.requests;
    }

-- the done frame and `mark_done`, which no await comes between
unfoldable pub finish_task : Settings → (was_cancelled : Bool) → Task → Task
unfolding terminal_status error_message n_completion shown_kind broadcast mark_done
finish_task settings was_cancelled t =
    let status = terminal_status was_cancelled t in
    let kind = shown_kind status t.upstream_error_kind in
    let last =
      done_frame status (n_prompt t) (n_completion settings t) (error_message was_cancelled t)
        kind in
    record t {
      state = mark_done status (error_message was_cancelled t) kind (broadcast last t.state);
    }
