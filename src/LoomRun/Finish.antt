-- ===== src/LoomRun/Finish.antt =====
-- The `finally` of `_run_loom_generation_task` of workbench_generations.py: the terminal status, the
-- nodes and the done frame.
use acs_base_model_api.Base.{
  ℕ, suc, Bool, true, false, ◌&&◌, Option, none, some, List, [], ◌∷◌, ◌++◌, leb, map, if◌then◌else◌,
}
use acs_base_model_api.Base.Lists.{take}
use acs_base_model_api.Base.Text.{Text, codes}
use acs_base_model_api.Base.Json.{ℤ, pos, suc_ℤ}
use acs_base_model_api.Budget.Store.{Date, Db}
use acs_base_model_api.Budget.Usage.{commit_usage}
use acs_base_model_api.Loom.Node.{LoomNode}
use acs_base_model_api.Workbench.{RunStatus, completed, cancelled, failed, Message, http_status}
use acs_base_model_api.Workbench.Absorb.{is_empty}
use acs_base_model_api.Workbench.Task.{get_or}
use acs_base_model_api.Workbench.Finish.{or_null, RequestRow, shown_kind, is_completed}
use acs_base_model_api.LoomRun.{done_frame, broadcast, mark_done}
use acs_base_model_api.LoomRun.Task.{LoomTask}

-- What the task was given, with the largest position among the siblings, the id of the first new
-- row, the time, whether `commit_usage` succeeds, and where the transaction fails: after how many nodes.
pub record LoomSettings : Type 0 where
  pub loom_id : ℕ
  pub parent_id : Option ℕ
  pub model_id : Text
  pub seed : Option ℤ
  pub base_position : Option ℤ
  pub first_id : ℕ
  pub now : ℕ
  pub commits : Bool
  pub fails_after : Option ℕ
  pub caller_key_id : ℕ
  pub caller_exists : Bool
  pub today : Date

-- `was_cancelled` is `cancel_requested` as the `finally` finds it: a cancellation that comes during
-- its writes does not count
unfoldable pub terminal_status : (was_cancelled : Bool) → LoomTask → RunStatus
terminal_status was_cancelled t = if was_cancelled then cancelled else elim t.upstream_error_msg [
  | some message ↦ failed
  | none ↦ if leb 400 t.upstream_status then failed else completed
]

unfoldable pub error_message : (was_cancelled : Bool) → LoomTask → Option Message
unfolding terminal_status
error_message was_cancelled t = elim (terminal_status was_cancelled t) [
  | failed ↦ some (get_or (http_status t.upstream_status) t.upstream_error_msg)
  | _ ↦ none
]

-- the prompt's and the completion's tokens
abbrev pub counts : LoomTask → ℕ × ℕ
counts t = get_or (0, 0) t.state.usage

-- a row per branch with text, at the positions and ids from the given ones on
unfoldable pub new_nodes : LoomSettings → (position : ℤ) → (id : ℕ) → List Text → List LoomNode
unfolding is_empty
new_nodes settings position id [] = []
new_nodes settings position id (text ∷ branches) =
    let skipped = new_nodes settings position id branches in
    let others = new_nodes settings (suc_ℤ position) (suc id) branches in
    if is_empty text
    then skipped
    else record {
      id = id;
      loom_id = settings.loom_id;
      parent_id = settings.parent_id;
      text = text;
      model = some settings.model_id;
      seed = settings.seed;
      position = position;
      logprobs = none;
      created_at = settings.now;
    }
      ∷ others

unfoldable pub next_position : Option ℤ → ℤ
next_position none = pos 0
next_position (some base) = suc_ℤ base

unfoldable pub created_nodes : LoomSettings → (was_cancelled : Bool) → LoomTask → List LoomNode
unfolding new_nodes next_position
created_nodes settings was_cancelled t = elim (terminal_status was_cancelled t) [
  | failed ↦ []
  | _ ↦ new_nodes settings (next_position settings.base_position) settings.first_id t.state.branches
]

pub record LoomTables : Type 0 where
  pub nodes : List LoomNode
  pub usage : Db
  pub requests : List RequestRow

-- the row of the request: a failed one has no counts
unfoldable pub request_row : RunStatus → LoomTask → RequestRow
request_row failed t = record {
  n_prompt = none;
  n_completion = none;
  status = t.upstream_status;
  error_kind = some (get_or (codes "upstream_error") t.upstream_error_kind);
}
request_row _ t =
    let (p, c) = counts t in
    record {
      n_prompt = or_null p;
      n_completion = or_null c;
      status = t.upstream_status;
      error_kind = none;
    }

abbrev pub has_nodes : List LoomNode → Bool
has_nodes [] = false
has_nodes (node ∷ nodes) = true

-- the transaction, which writes nothing when it fails
unfoldable pub persist : LoomSettings → (was_cancelled : Bool) → LoomTask → LoomTables → LoomTables
unfolding created_nodes request_row terminal_status
persist settings was_cancelled t tables =
    let status = terminal_status was_cancelled t in
    let nodes = created_nodes settings was_cancelled t in
    let (p, c) = counts t in
    elim settings.fails_after [
      | some m ↦ tables
      | none ↦ record {
        nodes = tables.nodes ++ nodes;
        usage =
            if (has_nodes nodes && is_completed status) && settings.commits
            then commit_usage tables.usage settings.today settings.caller_key_id p c
            else tables.usage;
        requests =
            if settings.caller_exists
            then tables.requests ++ request_row status t ∷ []
            else tables.requests;
      }
    ]

-- `created_node_ids`: the rows that were flushed, also when the transaction failed afterwards
unfoldable pub created_node_ids : LoomSettings → (was_cancelled : Bool) → LoomTask → List ℕ
unfolding created_nodes
created_node_ids settings was_cancelled t =
    let ids = map (λ node. node.id) (created_nodes settings was_cancelled t) in
    elim settings.fails_after [ none ↦ ids | some m ↦ take m ids ]

-- the done frame and `mark_done`, which no await comes between
unfoldable pub finish_task : LoomSettings → (was_cancelled : Bool) → LoomTask → LoomTask
unfolding terminal_status error_message shown_kind created_node_ids broadcast mark_done
finish_task settings was_cancelled t =
    let status = terminal_status was_cancelled t in
    let kind = shown_kind status t.upstream_error_kind in
    let (p, c) = counts t in
    let last =
      done_frame status p c (error_message was_cancelled t) kind
        (created_node_ids settings was_cancelled t) in
    record t {
      state = mark_done status (error_message was_cancelled t) kind (broadcast last t.state);
    }
