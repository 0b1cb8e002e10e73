-- ===== src/Workbench/LaneSteps.antt =====
-- Each step of a lane keeps the invariant of the batch-completion barrier.
use acs_base_model_api.Base.{
  ℕ, ◌≡◌, refl, sym, ap, ◌∙◌, Bool, true, false, ◌⊎◌, inl, inr, List, ◌∷◌, ◌++◌,
}
use acs_base_model_api.Base.Lists.{All}
use acs_base_model_api.Workbench.Compare.{
  ChatGeneration, CompareSnapshot, is_running_status, any_running, assemble, SnapshotRow, History,
  insert_snapshot, post_snapshot, prune_history,
}
use acs_base_model_api.Workbench.History.{
  HistoryOk, insert-Ok, running-Ok, post-Ok, post-Recorded, prune-Ok,
}
use acs_base_model_api.Workbench.Lanes.{
  Pc, streaming, committed, writing, left, Lane, rows, Batch, at_pc, with_history,
}
use acs_base_model_api.Workbench.Barrier.{
  StreamRuns, Terminal, Writes, Inv, All-at, All-swap, rows-swap, pending-at, any_running-at,
  assemble-Run, no_writer,
}

-- the writers of a run whose lane `x` has become `y`
swap-Writes :
    (run_id : ℕ) (gens others : List ChatGeneration) (before after : List Lane) (x y : Lane)
    → gens ≡ others
    → Writes run_id gens y
    → All (Writes run_id gens) (before ++ x ∷ after)
    → All (Writes run_id others) (before ++ y ∷ after)
swap-Writes run_id gens others before after x y e w h =
    rw (sym e) (All-swap (Writes run_id gens) before after x y w h)

quiet-Table :
    (run_id : ℕ) (h : History) (gens others : List ChatGeneration)
    → gens ≡ others
    → HistoryOk run_id gens h
    → HistoryOk run_id others h
quiet-Table run_id h gens others e ok = rw (sym e) ok

-- the first commit of a lane: its row was running, so nobody writes yet
module _ (run_id : ℕ) (ds : History) (before after : List Lane) (row : ChatGeneration)
    (clean : Bool) where
  abbrev pub batch : Pc → History → Bool → Batch
  batch pc es c = record { lanes = before ++ at_pc row pc ∷ after; history = es; clean = c }

  pub commit-Inv :
      (new_row : ChatGeneration) (c : Bool)
      → (c ≡ false) ⊎ ((c ≡ clean) × (is_running_status new_row.status ≡ false))
      → Inv run_id (batch streaming ds clean)
      → Inv run_id
          (record { lanes = before ++ at_pc new_row committed ∷ after; history = ds; clean = c })
  commit-Inv new_row c ends inv =
      let lane = at_pc new_row committed in
      let runs =
        any_running-at before after (at_pc row streaming)
          (All-at StreamRuns before after (at_pc row streaming) inv.streams) in
      record {
        streams = All-swap StreamRuns before after (at_pc row streaming) lane tt inv.streams;
        writers =
            All-swap (Writes run_id (rows (before ++ lane ∷ after))) before after
              (at_pc row streaming) lane tt
              (no_writer run_id (rows (before ++ at_pc row streaming ∷ after))
                (rows (before ++ lane ∷ after)) (before ++ at_pc row streaming ∷ after) runs
                inv.writers);
        table = running-Ok run_id _ _ ds runs inv.table;
        progress = elim ends [
          | inl dirty ↦ inl dirty
          | inr (same, terminal) ↦ elim inv.progress [
            | inl dirty ↦ inl (same ∙ dirty)
            | inr (all, h) ↦ inr (
              All-swap Terminal before after (at_pc row streaming) lane terminal all,
              inr (inl (pending-at before after lane)),
            )
          ]
        ];
      }

  pub bail-Inv :
      any_running (rows (before ++ at_pc row committed ∷ after)) ≡ true
      → Inv run_id (batch committed ds clean)
      → Inv run_id (batch left ds clean)
  bail-Inv runs inv =
      let e = rows-swap before after row committed left in
      record {
        streams =
            All-swap StreamRuns before after (at_pc row committed) (at_pc row left) tt inv.streams;
        writers =
            swap-Writes run_id _ _ before after (at_pc row committed) (at_pc row left) e tt
              inv.writers;
        table = quiet-Table run_id ds _ _ e inv.table;
        progress = elim inv.progress [
          | inl dirty ↦ inl dirty
          | inr (all, h) ↦ inr (
            All-swap Terminal before after (at_pc row committed) (at_pc row left)
                (All-at Terminal before after (at_pc row committed) all) all,
            inl (sym (ap any_running e) ∙ runs),
          )
        ];
      }

  pub read-Inv :
      (c : CompareSnapshot)
      → (any_running (rows (before ++ at_pc row committed ∷ after)) ≡ false)
        × (c ≡ assemble run_id (rows (before ++ at_pc row committed ∷ after)))
      → Inv run_id (batch committed ds clean)
      → Inv run_id (batch (writing c) ds clean)
  read-Inv c quiet inv =
      let e = rows-swap before after row committed (writing c) in
      record {
        streams =
            All-swap StreamRuns before after (at_pc row committed) (at_pc row (writing c)) tt
              inv.streams;
        writers =
            swap-Writes run_id _ _ before after (at_pc row committed) (at_pc row (writing c)) e
              quiet inv.writers;
        table = quiet-Table run_id ds _ _ e inv.table;
        progress = elim inv.progress [
          | inl dirty ↦ inl dirty
          | inr (all, h) ↦ inr (
            All-swap Terminal before after (at_pc row committed) (at_pc row (writing c))
                (All-at Terminal before after (at_pc row committed) all) all,
            inr (inl (pending-at before after (at_pc row (writing c)))),
          )
        ];
      }

  pub write-Inv :
      (c : CompareSnapshot) (r : SnapshotRow)
      → Inv run_id (batch (writing c) ds clean)
      → Inv run_id (batch left (insert_snapshot (record r { snapshot = c }) ds) clean)
  write-Inv c r inv =
      let e = rows-swap before after row (writing c) left in
      let fine = All-at (Writes run_id _) before after (at_pc row (writing c)) inv.writers in
      let own = ap (λ x. x.compare_run_id) fine.1 ∙ assemble-Run run_id _ in
      let inserts = insert-Ok run_id _ ds (record r { snapshot = c }) fine own inv.table in
      record {
        streams =
            All-swap StreamRuns before after (at_pc row (writing c)) (at_pc row left) tt
              inv.streams;
        writers =
            swap-Writes run_id _ _ before after (at_pc row (writing c)) (at_pc row left) e tt
              inv.writers;
        table = quiet-Table run_id _ _ _ e inserts.0;
        progress = elim inv.progress [
          | inl dirty ↦ inl dirty
          | inr (all, h) ↦ inr (
            All-swap Terminal before after (at_pc row (writing c)) (at_pc row left)
                (All-at Terminal before after (at_pc row (writing c)) all) all,
            inr (inr inserts.1),
          )
        ];
      }

  pub fail-Inv : (pc : Pc) → Inv run_id (batch pc ds clean) → Inv run_id (batch left ds false)
  fail-Inv pc inv =
      let e = rows-swap before after row pc left in
      record {
        streams = All-swap StreamRuns before after (at_pc row pc) (at_pc row left) tt inv.streams;
        writers =
            swap-Writes run_id _ _ before after (at_pc row pc) (at_pc row left) e tt inv.writers;
        table = quiet-Table run_id ds _ _ e inv.table;
        progress = inl refl;
      }

module _ (run_id : ℕ) (s : Batch) where
  pub post-Inv :
      (r : SnapshotRow) → Inv run_id s → Inv run_id (with_history s (post_snapshot r s.history))
  post-Inv r inv = record {
    streams = inv.streams;
    writers = inv.writers;
    table = post-Ok run_id (rows s.lanes) s.history r inv.table;
    progress = elim inv.progress [
      | inl dirty ↦ inl dirty
      | inr (all, inl runs) ↦ inr (all, inl runs)
      | inr (all, inr (inl waiting)) ↦ inr (all, inr (inl waiting))
      | inr (all, inr (inr found)) ↦ inr (all, inr (inr (post-Recorded run_id s.history r found)))
    ];
  }

  pub prune-Inv :
      (chat_id : ℕ) → Inv run_id s → Inv run_id (with_history s (prune_history chat_id s.history))
  unfolding prune_history
  prune-Inv chat_id inv = record {
    streams = inv.streams;
    writers = inv.writers;
    table = prune-Ok run_id chat_id (rows s.lanes) s.history inv.table;
    progress = inv.progress;
  }
