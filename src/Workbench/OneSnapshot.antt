-- ===== src/Workbench/OneSnapshot.antt =====
-- The batch-completion barrier and the clients' POSTs write one snapshot of a run.
use acs_base_model_api.Base.{
  ℕ, ◌≡◌, refl, Bool, true, false, ◌⊎◌, inl, inr, List, [], ◌∷◌, arith, ◌≤◌, some, sym,
}
use acs_base_model_api.Base.Lists.{All, All-map}
use acs_base_model_api.Workbench.Compare.{
  ChatGeneration, CompareSnapshot, is_running_status, any_running, assemble, has_run, is_run,
  SnapshotRow, History,
}
use acs_base_model_api.Workbench.Lanes.{
  streaming, committed, left, Lane, rows, Batch, at_pc, Step, commit, commit_fails, bail, read,
  write, fail, launch, AllRunning, Reach, start, then_step, then_post, then_prune, before_launch,
}
use acs_base_model_api.Workbench.Barrier.{
  StreamRuns, Terminal, Writes, pending, Inv, any_running-at, barrier-Reads, barrier-Bails,
}
use acs_base_model_api.Workbench.LaneSteps.{
  commit-Inv, bail-Inv, read-Inv, write-Inv, fail-Inv, post-Inv, prune-Inv,
}
use acs_base_model_api.Workbench.History.{
  Among, All-Among, count_run, HistoryOk, Recorded, launch-Ok,
}

step-Inv :
    (run_id : ℕ) (ds : History) (before after : List Lane) (clean : Bool) {s t : Batch}
    → Step run_id before after ds clean s t
    → Inv run_id s
    → Inv run_id t
step-Inv run_id ds before after clean (commit row new_row ends) inv =
    commit-Inv run_id ds before after row clean new_row clean (inr (refl, ends)) inv
step-Inv run_id ds before after clean (commit_fails row) inv =
    commit-Inv run_id ds before after row clean row false (inl refl) inv
step-Inv run_id ds before after clean (bail row e) inv =
    bail-Inv run_id ds before after row clean
      (barrier-Bails run_id before after (at_pc row committed) e) inv
step-Inv run_id ds before after clean (read row c e) inv =
    read-Inv run_id ds before after row clean c (barrier-Reads run_id _ c e) inv
step-Inv run_id ds before after clean (write row c r) inv =
    write-Inv run_id ds before after row clean c r inv
step-Inv run_id ds before after clean (fail row pc) inv =
    fail-Inv run_id ds before after row clean pc inv

launch-All {ℓ} :
    (P : Lane → Type ℓ)
    → ((row : ChatGeneration) → is_running_status row.status ≡ true → P (at_pc row streaming))
    → (gens : List ChatGeneration) → AllRunning gens
    → All P (launch gens)
launch-All P f [] h = tt
launch-All P f (row ∷ gens) h = (f row h.0, launch-All P f gens h.1)

start-Inv :
    (run_id : ℕ) (cs : List SnapshotRow) (first : ChatGeneration) (gens : List ChatGeneration)
    → has_run (some run_id) cs ≡ false
    → AllRunning (first ∷ gens)
    → Inv run_id
        (record { lanes = launch (first ∷ gens); history = before_launch cs; clean = true })
start-Inv run_id cs first gens fresh h = record {
  streams = launch-All StreamRuns (λ row e. e) (first ∷ gens) h;
  writers = launch-All (Writes run_id _) (λ row e. tt) (first ∷ gens) h;
  table = launch-Ok run_id _ cs fresh;
  progress = inr (
    launch-All Terminal (λ row e. tt) (first ∷ gens) h,
    inl (any_running-at [] (launch gens) (at_pc first streaming) h.0),
  );
}

reach-Inv :
    (run_id : ℕ) (cs : List SnapshotRow) {s : Batch}
    → has_run (some run_id) cs ≡ false
    → Reach run_id cs s
    → Inv run_id s
reach-Inv run_id cs fresh (start first gens h) = start-Inv run_id cs first gens fresh h
reach-Inv run_id cs fresh (then_step r step) =
    step-Inv run_id _ _ _ _ step (reach-Inv run_id cs fresh r)
reach-Inv run_id cs fresh (then_post {s = s} row r) =
    post-Inv run_id s row (reach-Inv run_id cs fresh r)
reach-Inv run_id cs fresh (then_prune {s = s} chat_id r) =
    prune-Inv run_id s chat_id (reach-Inv run_id cs fresh r)

-- a row of the run is one that a client's POST inserted, or the snapshot of all lanes in their final
-- rows, none of which is running
abbrev pub FromRun : ℕ → Batch → SnapshotRow → Type 0
FromRun run_id s r =
    is_run run_id r.snapshot ≡ true
    → Among r.snapshot s.history.posted
      ⊎ ((any_running (rows s.lanes) ≡ false) × (r.snapshot ≡ assemble run_id (rows s.lanes)))

-- However the lanes of a Compare run, the clients' POSTs and the prunes of the history interleave,
-- and whichever writes fail: the table has at most one row of the run, and that row is one that a
-- POST inserted, or the snapshot of all lanes in their final rows, none of which is running. The
-- table has no row of the run before the launch.
pub snapshot-AtMostOne :
    (run_id : ℕ) (cs : List SnapshotRow) (s : Batch)
    → has_run (some run_id) cs ≡ false
    → Reach run_id cs s
    → (count_run run_id s.history.snapshots ≤ 1) × All (FromRun run_id s) s.history.snapshots
snapshot-AtMostOne run_id cs s fresh r =
    let ok = (reach-Inv run_id cs fresh r).table in
    (
      ok.unique,
      All-map
          (λ q h own. elim (h own) [
            | inl m ↦ inl m
            | inr m ↦ inr (All-Among _ q.snapshot s.history.written ok.whole m)
          ])
          s.history.snapshots ok.known,
    )

nobody_waits :
    (ls : List Lane)
    → All (λ l. l.pc ≡ left) ls
    → All Terminal ls
    → (any_running (rows ls) ≡ false) × (pending ls ≡ 0)
unfolding any_running
nobody_waits [] e h = (refl, refl)
nobody_waits (l ∷ ls) e h =
    let terminal = rw e.0 at h.0 in
    let (quiet, none_waits) = nobody_waits ls e.1 h.1 in
    (rw (terminal, quiet) refl, rw e.0 (omega (arith, none_waits)))

-- what has been inserted for the run: the barrier's snapshot of all lanes, or one of a POST
abbrev pub WasInserted : ℕ → Batch → Type 0
WasInserted run_id s =
    Among (assemble run_id (rows s.lanes)) s.history.written
    ⊎ ((c : CompareSnapshot) × (Among c s.history.posted × (is_run run_id c ≡ true)))

Recorded-WasInserted :
    (run_id : ℕ) (s : Batch)
    → HistoryOk run_id (rows s.lanes) s.history
    → Recorded run_id s.history
    → WasInserted run_id s
Recorded-WasInserted run_id s ok (inl post) = inr post
Recorded-WasInserted run_id s ok (inr (c, m)) =
    inl (rw (sym ((All-Among _ c s.history.written ok.whole m).1)) m)

-- If no write of a lane has failed, the snapshot of a Compare run is not missed: once every lane's
-- task has gone through its barrier, the barrier has inserted the snapshot of all lanes, or a
-- client's POST has inserted one for the run. The table has no row of the run before the launch.
pub snapshot-Written :
    (run_id : ℕ) (cs : List SnapshotRow) (s : Batch)
    → has_run (some run_id) cs ≡ false
    → Reach run_id cs s
    → s.clean ≡ true
    → All (λ l. l.pc ≡ left) s.lanes
    → WasInserted run_id s
snapshot-Written run_id cs s fresh r clean gone =
    let inv = reach-Inv run_id cs fresh r in
    elim inv.progress [
      | inl dirty ↦ absurd (ground arith)
      | inr (all, inl runs) ↦ absurd (ground (arith, (nobody_waits s.lanes gone all).0))
      | inr (all, inr (inl waiting)) ↦
          absurd (omega (arith, waiting, (nobody_waits s.lanes gone all).1))
      | inr (all, inr (inr found)) ↦ Recorded-WasInserted run_id s inv.table found
    ]
