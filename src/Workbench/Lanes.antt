-- ===== src/Workbench/Lanes.antt =====
-- The lanes of one Compare run and the batch-completion barrier: each lane's task commits its
-- terminal row, then reads its siblings' rows, then writes the snapshot if none was running. Another
-- task may come between any two of these.
use acs_base_model_api.Base.{ℕ, Bool, true, false, ◌≡◌, none, some, List, [], ◌∷◌, ◌++◌}
use acs_base_model_api.Workbench.Compare.{
  ChatGeneration, CompareSnapshot, SnapshotRow, History, is_running_status, read_barrier,
  insert_snapshot, post_snapshot, prune_history,
}

-- where the task of a lane stands
pub data Pc : Type 0 where
  streaming : Pc
  committed : Pc
  writing : CompareSnapshot → Pc
  left : Pc

pub record Lane : Type 0 where
  pub row : ChatGeneration
  pub pc : Pc

abbrev pub rows : List Lane → List ChatGeneration
rows [] = []
rows (l ∷ ls) = l.row ∷ rows ls

-- `clean` as long as no commit and no barrier has failed
pub record Batch : Type 0 where
  pub lanes : List Lane
  pub history : History
  pub clean : Bool

abbrev pub at_pc : ChatGeneration → Pc → Lane
at_pc row pc = record { row = row; pc = pc }

-- One step of one lane's task, `before` and `after` being the other lanes.
pub data Step (run_id : ℕ) (before after : List Lane) (cs : History) (clean : Bool)
    : Batch → Batch → Type 0 where
  commit :
      (row new_row : ChatGeneration)
      → is_running_status new_row.status ≡ false
      → Step run_id before after cs clean
          (record { lanes = before ++ at_pc row streaming ∷ after; history = cs; clean = clean })
          (record {
            lanes = before ++ at_pc new_row committed ∷ after;
            history = cs;
            clean = clean;
          })
  commit_fails :
      (row : ChatGeneration)
      → Step run_id before after cs clean
          (record { lanes = before ++ at_pc row streaming ∷ after; history = cs; clean = clean })
          (record { lanes = before ++ at_pc row committed ∷ after; history = cs; clean = false })
  bail :
      (row : ChatGeneration)
      → read_barrier run_id (rows (before ++ at_pc row committed ∷ after)) ≡ none
      → Step run_id before after cs clean
          (record { lanes = before ++ at_pc row committed ∷ after; history = cs; clean = clean })
          (record { lanes = before ++ at_pc row left ∷ after; history = cs; clean = clean })
  read :
      (row : ChatGeneration) (c : CompareSnapshot)
      → read_barrier run_id (rows (before ++ at_pc row committed ∷ after)) ≡ some c
      → Step run_id before after cs clean
          (record { lanes = before ++ at_pc row committed ∷ after; history = cs; clean = clean })
          (record { lanes = before ++ at_pc row (writing c) ∷ after; history = cs; clean = clean })
  write :
      (row : ChatGeneration) (c : CompareSnapshot) (r : SnapshotRow)
      → Step run_id before after cs clean
          (record { lanes = before ++ at_pc row (writing c) ∷ after; history = cs; clean = clean })
          (record {
            lanes = before ++ at_pc row left ∷ after;
            history = insert_snapshot (record r { snapshot = c }) cs;
            clean = clean;
          })
  fail :
      (row : ChatGeneration) (pc : Pc)
      → Step run_id before after cs clean
          (record { lanes = before ++ at_pc row pc ∷ after; history = cs; clean = clean })
          (record { lanes = before ++ at_pc row left ∷ after; history = cs; clean = false })

abbrev pub launch : List ChatGeneration → List Lane
launch [] = []
launch (row ∷ gens) = at_pc row streaming ∷ launch gens

abbrev pub AllRunning : List ChatGeneration → Type 0
AllRunning [] = Unit
AllRunning (row ∷ gens) = (is_running_status row.status ≡ true) × AllRunning gens

-- the history at the launch: no log yet
abbrev pub before_launch : List SnapshotRow → History
before_launch cs = record { snapshots = cs; written = []; posted = [] }

abbrev pub with_history : Batch → History → Batch
with_history s h = record s { history = h }

-- The states of a run that was launched beside the rows `cs` of other runs. A POST of a client, for
-- this run or for another, and the prune that follows an insert may come at any time.
pub data Reach (run_id : ℕ) (cs : List SnapshotRow) : Batch → Type 0 where
  start :
      (first : ChatGeneration) (gens : List ChatGeneration)
      → AllRunning (first ∷ gens)
      → Reach run_id cs
          (record { lanes = launch (first ∷ gens); history = before_launch cs; clean = true })
  then_step :
      {before after : List Lane} {h : History} {clean : Bool} {s t : Batch}
      → Reach run_id cs s
      → Step run_id before after h clean s t
      → Reach run_id cs t
  then_post :
      {s : Batch} (r : SnapshotRow)
      → Reach run_id cs s
      → Reach run_id cs (with_history s (post_snapshot r s.history))
  then_prune :
      {s : Batch} (chat_id : ℕ)
      → Reach run_id cs s
      → Reach run_id cs (with_history s (prune_history chat_id s.history))
