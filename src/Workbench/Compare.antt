-- ===== src/Workbench/Compare.antt =====
-- `_lane_from_generation` and `_maybe_write_compare_snapshot` of workbench_generations.py: the
-- snapshot of a batch of lanes, and the history of snapshots that it and the client's POST write.
use acs_base_model_api.Base.{
  ℕ, Bool, true, false, not, ◌&&◌, ◌||◌, Option, none, some, List, [], ◌∷◌, ◌++◌, map, leb, nat_eq,
  ◌==◌, if◌then◌else◌,
}
use acs_base_model_api.Base.Lists.{length, take, select, contains}
use acs_base_model_api.Base.Sort.{sort_by}
use acs_base_model_api.Base.Text.{Text, codes}
use acs_base_model_api.Base.Json.{
  ℤ, pos, leb_ℤ, Json, null, bool, int, str, arr, obj, end, item, Fields, get_field,
}
use acs_base_model_api.Workbench.{RunStatus, running, cancelled, failed}

abbrev pub compare_snapshot_completion_cap : ℕ
compare_snapshot_completion_cap = 100000

-- the row of a lane; ids are numbered in the order of their strings
pub record ChatGeneration : Type 0 where
  pub id : ℕ
  pub model : Text
  pub max_tokens : ℕ
  pub temperature : Json
  pub prompt_before : Option Text
  pub completion_text : Option Text
  pub status : RunStatus
  pub compare_config : Json

pub record LaneSnapshot : Type 0 where
  pub model : Text
  pub max_tokens : ℕ
  pub temperature : Json
  pub top_p : Json
  pub top_k : Json
  pub min_p : Json
  pub presence_penalty : Json
  pub frequency_penalty : Json
  pub repetition_penalty : Json
  pub seed : Json
  pub stop : Option Text
  pub completion_text : Text
  pub cancelled : Bool

-- the config, if it is a dict
unfoldable pub config_fields : Json → Fields
config_fields (obj fs) = fs
config_fields v = Fields.stop

unfoldable pub first_stop : Json → Json
first_stop (arr (item v vs)) = v
first_stop (arr end) = null
first_stop v = v

unfoldable pub stop_text : Json → Option Text
stop_text (str (c ∷ t)) = some (take 200 (c ∷ t))
stop_text v = none

abbrev text_or_empty : Option Text → Text
text_or_empty none = []
text_or_empty (some t) = t

unfoldable pub is_cancelled : RunStatus → Bool
is_cancelled cancelled = true
is_cancelled failed = true
is_cancelled _ = false

unfoldable pub lane_from_generation : ChatGeneration → LaneSnapshot
unfolding config_fields first_stop stop_text is_cancelled
lane_from_generation gen =
    let cfg = config_fields gen.compare_config in
    record {
      model = gen.model;
      max_tokens = gen.max_tokens;
      temperature = gen.temperature;
      top_p = get_field (codes "top_p") cfg;
      top_k = get_field (codes "top_k") cfg;
      min_p = get_field (codes "min_p") cfg;
      presence_penalty = get_field (codes "presence_penalty") cfg;
      frequency_penalty = get_field (codes "frequency_penalty") cfg;
      repetition_penalty = get_field (codes "repetition_penalty") cfg;
      seed = get_field (codes "seed") cfg;
      stop = stop_text (first_stop (get_field (codes "stop") cfg));
      completion_text = take compare_snapshot_completion_cap (text_or_empty gen.completion_text);
      cancelled = is_cancelled gen.status;
    }

-- `int(idx)`, where a bool is an int as well
unfoldable pub lane_index : Json → ℤ
lane_index (int i) = i
lane_index (bool true) = pos 1
lane_index (bool false) = pos 0
lane_index v = pos 1000000

unfoldable pub order_key : ChatGeneration → ℤ × ℕ
unfolding lane_index config_fields
order_key row = (lane_index (get_field (codes "index") (config_fields row.compare_config)), row.id)

-- Python's order of the pairs
abbrev pub key_leb : ℤ × ℕ → ℤ × ℕ → Bool
key_leb (i, a) (j, b) = leb_ℤ i j && (not (leb_ℤ j i) || leb a b)

pub record CompareSnapshot : Type 0 where
  pub prompt : Text
  pub lanes : List LaneSnapshot
  pub n_lanes : ℕ
  pub compare_run_id : Option ℕ

abbrev pub is_running_status : RunStatus → Bool
is_running_status running = true
is_running_status _ = false

unfoldable pub any_running : List ChatGeneration → Bool
any_running [] = false
any_running (row ∷ rows) = is_running_status row.status || any_running rows

unfoldable pub first_prompt : List ChatGeneration → Text
first_prompt [] = []
first_prompt (row ∷ rows) = text_or_empty row.prompt_before

-- the snapshot of the lanes in the order of their launch
unfoldable pub assemble : ℕ → List ChatGeneration → CompareSnapshot
unfolding lane_from_generation order_key first_prompt
assemble run_id rows =
    let sorted = sort_by (λ a b. key_leb (order_key a) (order_key b)) rows in
    record {
      prompt = first_prompt sorted;
      lanes = map lane_from_generation sorted;
      n_lanes = length sorted;
      compare_run_id = some run_id;
    }

-- what the barrier reads: nothing to write while there is no row, or one that is running
unfoldable pub read_barrier : ℕ → List ChatGeneration → Option CompareSnapshot
unfolding any_running assemble
read_barrier run_id [] = none
read_barrier run_id (row ∷ rows) =
    if any_running (row ∷ rows) then none else some (assemble run_id (row ∷ rows))

-- a row of compare_snapshots
pub record SnapshotRow : Type 0 where
  pub id : ℕ
  pub ts : ℕ
  pub session_id : ℕ
  pub snapshot : CompareSnapshot

abbrev pub is_run : ℕ → CompareSnapshot → Bool
is_run run_id c = elim c.compare_run_id [ none ↦ false | some k ↦ k == run_id ]

-- a NULL conflicts with no row
unfoldable pub has_run : Option ℕ → List SnapshotRow → Bool
has_run none rows = false
has_run (some run_id) [] = false
has_run (some run_id) (r ∷ rows) = is_run run_id r.snapshot || has_run (some run_id) rows

abbrev pub compare_snapshot_limit : ℕ
compare_snapshot_limit = 20

-- ORDER BY ts DESC, id DESC
abbrev pub newer : SnapshotRow → SnapshotRow → Bool
newer a b = leb b.ts a.ts && (not (leb a.ts b.ts) || leb b.id a.id)

abbrev ids_of : List SnapshotRow → List ℕ
ids_of [] = []
ids_of (r ∷ rows) = r.id ∷ ids_of rows

unfoldable pub keep_ids : ℕ → List SnapshotRow → List ℕ
keep_ids chat_id rows =
    take compare_snapshot_limit
      (ids_of (sort_by newer (select (λ r. r.session_id == chat_id) rows)))

-- the session's rows beyond the newest are deleted
unfoldable pub prune : ℕ → List SnapshotRow → List SnapshotRow
unfolding keep_ids
prune chat_id rows =
    select (λ r. not (r.session_id == chat_id) || contains r.id (keep_ids chat_id rows)) rows

-- The table, with logs of what the barrier has inserted and of what the client's POSTs have.
pub record History : Type 0 where
  pub snapshots : List SnapshotRow
  pub written : List CompareSnapshot
  pub posted : List CompareSnapshot

-- INSERT … ON CONFLICT (compare_run_id) DO NOTHING
unfoldable pub insert_snapshot : SnapshotRow → History → History
unfolding has_run
insert_snapshot r h =
    if has_run r.snapshot.compare_run_id h.snapshots
    then h
    else record h { snapshots = h.snapshots ++ r ∷ []; written = h.written ++ r.snapshot ∷ [] }

-- the prune after an insert, in its own transaction
unfoldable pub prune_history : ℕ → History → History
unfolding prune
prune_history chat_id h = record h { snapshots = prune chat_id h.snapshots }

-- The client's POST: it gives back the row of its run where there is one, before or by the unique
-- constraint, and else inserts and prunes.
unfoldable pub post_snapshot : SnapshotRow → History → History
unfolding has_run prune
post_snapshot r h = if has_run r.snapshot.compare_run_id h.snapshots then h else record h {
  snapshots = prune r.session_id (h.snapshots ++ r ∷ []);
  posted = h.posted ++ r.snapshot ∷ [];
}
