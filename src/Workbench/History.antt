-- ===== src/Workbench/History.antt =====
-- The history of compare snapshots: what its inserts and its prunes keep of the rows of one run.
use acs_base_model_api.Base.{
  ℕ, ◌+◌, ◌≤◌, ◌≡◌, refl, sym, ap, ◌∙◌, Bool, true, false, Bool-cases, ◌⊎◌, inl, inr, some, List,
  [], ◌∷◌, ◌++◌, not, ◌||◌, nat_eq, ◌==◌, arith, if◌then◌else◌,
}
use acs_base_model_api.Base.Lists.{All, All-append, All-map, select, contains}
use acs_base_model_api.Workbench.Compare.{
  ChatGeneration, CompareSnapshot, SnapshotRow, History, any_running, assemble, is_run, has_run,
  keep_ids, prune, insert_snapshot, prune_history, post_snapshot,
}

abbrev pub Among : CompareSnapshot → List CompareSnapshot → Type 0
Among c [] = ⊥
Among c (d ∷ ds) = (d ≡ c) ⊎ Among c ds

Among-append :
    (c : CompareSnapshot) (ds es : List CompareSnapshot) → Among c ds → Among c (ds ++ es)
Among-append c [] es m = absurd m
Among-append c (d ∷ ds) es (inl e) = inl e
Among-append c (d ∷ ds) es (inr m) = inr (Among-append c ds es m)

Among-last : (c : CompareSnapshot) (ds : List CompareSnapshot) → Among c (ds ++ c ∷ [])
Among-last c [] = inl refl
Among-last c (d ∷ ds) = inr (Among-last c ds)

pub All-Among {κ} :
    (P : CompareSnapshot → Type κ) (c : CompareSnapshot) (ds : List CompareSnapshot)
    → All P ds
    → Among c ds
    → P c
All-Among P c [] h m = absurd m
All-Among P c (d ∷ ds) h (inl e) = rw (sym e) h.0
All-Among P c (d ∷ ds) h (inr m) = All-Among P c ds h.1 m

-- the rows of one run
abbrev pub count_run : ℕ → List SnapshotRow → ℕ
count_run run_id [] = 0
count_run run_id (r ∷ rows) = (if is_run run_id r.snapshot then 1 else 0) + count_run run_id rows

All-select {κ} :
    (P : SnapshotRow → Type κ) (p : SnapshotRow → Bool) (rows : List SnapshotRow)
    → All P rows
    → All P (select p rows)
All-select P p [] h = tt
All-select P p (r ∷ rows) h = elim (Bool-cases (p r)) [
  | inl e ↦ rw e (h.0, All-select P p rows h.1)
  | inr e ↦ rw e (All-select P p rows h.1)
]

count_run-select :
    (run_id : ℕ) (p : SnapshotRow → Bool) (rows : List SnapshotRow)
    → count_run run_id (select p rows) ≤ count_run run_id rows
count_run-select run_id p [] = omega arith
count_run-select run_id p (r ∷ rows) = ground (arith, count_run-select run_id p rows)

count_run-append :
    (run_id : ℕ) (rows : List SnapshotRow) (r : SnapshotRow)
    → count_run run_id (rows ++ r ∷ [])
      ≡ count_run run_id rows + (if is_run run_id r.snapshot then 1 else 0)
count_run-append run_id [] r = omega arith
count_run-append run_id (q ∷ rows) r = omega (arith, count_run-append run_id rows r)

count_run-none :
    (run_id : ℕ) (rows : List SnapshotRow)
    → has_run (some run_id) rows ≡ false
    → count_run run_id rows ≡ 0
unfolding has_run
count_run-none run_id [] e = refl
count_run-none run_id (r ∷ rows) e = ground (arith, count_run-none run_id rows)

is_run-Eq :
    (run_id : ℕ) (c : CompareSnapshot) → is_run run_id c ≡ true → c.compare_run_id ≡ some run_id
is_run-Eq run_id c e = ground arith

-- a row that is inserted where the table has none of its run
pub count_run-insert :
    (run_id : ℕ) (rows : List SnapshotRow) (r : SnapshotRow)
    → has_run r.snapshot.compare_run_id rows ≡ false
    → count_run run_id rows ≤ 1
    → count_run run_id (rows ++ r ∷ []) ≤ 1
count_run-insert run_id rows r none_yet one = elim (Bool-cases (is_run run_id r.snapshot)) [
  | inl own ↦
      let clear =
        count_run-none run_id rows
          (sym (ap (λ o. has_run o rows) (is_run-Eq run_id r.snapshot own)) ∙ none_yet) in
      omega (arith, count_run-append run_id rows r, clear, ap {B = ℕ} (λ b. if b then 1 else 0) own)
  | inr other ↦
      omega (arith, count_run-append run_id rows r, one, ap {B = ℕ} (λ b. if b then 1 else 0) other)
]

-- where a row of the run comes from
abbrev pub Origin : ℕ → List CompareSnapshot → List CompareSnapshot → SnapshotRow → Type 0
Origin run_id written posted r =
    is_run run_id r.snapshot ≡ true → Among r.snapshot posted ⊎ Among r.snapshot written

-- the run has one row at most, and its rows come from the barrier or a client's POST
pub record HistoryOk (run_id : ℕ) (gens : List ChatGeneration) (h : History) : Type 0 where
  pub unique : count_run run_id h.snapshots ≤ 1
  pub known : All (Origin run_id h.written h.posted) h.snapshots
  pub whole : All (λ c. (any_running gens ≡ false) × (c ≡ assemble run_id gens)) h.written

-- a snapshot of the run has been inserted
abbrev pub Recorded : ℕ → History → Type 0
Recorded run_id h =
    ((c : CompareSnapshot) × (Among c h.posted × (is_run run_id c ≡ true)))
    ⊎ ((c : CompareSnapshot) × Among c h.written)

more_written :
    (run_id : ℕ) (written posted es : List CompareSnapshot) (rows : List SnapshotRow)
    → All (Origin run_id written posted) rows
    → All (Origin run_id (written ++ es) posted) rows
more_written run_id written posted es rows =
    All-map
      (λ r h own. elim (h own) [
        | inl m ↦ inl m
        | inr m ↦ inr (Among-append r.snapshot written es m)
      ])
      rows

more_posted :
    (run_id : ℕ) (written posted es : List CompareSnapshot) (rows : List SnapshotRow)
    → All (Origin run_id written posted) rows
    → All (Origin run_id written (posted ++ es)) rows
more_posted run_id written posted es rows =
    All-map
      (λ r h own. elim (h own) [
        | inl m ↦ inl (Among-append r.snapshot posted es m)
        | inr m ↦ inr m
      ])
      rows

pub prune-Ok :
    (run_id chat_id : ℕ) (gens : List ChatGeneration) (h : History)
    → HistoryOk run_id gens h
    → HistoryOk run_id gens (prune_history chat_id h)
unfolding prune_history prune
prune-Ok run_id chat_id gens h ok = record {
  unique = omega (
    arith,
    ok.unique,
    count_run-select run_id
        (λ r. not (r.session_id == chat_id) || contains r.id (keep_ids chat_id h.snapshots))
        h.snapshots,
  );
  known = All-select (Origin run_id h.written h.posted) _ h.snapshots ok.known;
  whole = ok.whole;
}

inserted-Ok :
    (run_id : ℕ) (gens : List ChatGeneration) (h : History) (r : SnapshotRow)
    → has_run r.snapshot.compare_run_id h.snapshots ≡ false
    → (any_running gens ≡ false) × (r.snapshot ≡ assemble run_id gens)
    → HistoryOk run_id gens h
    → HistoryOk run_id gens
        (record h { snapshots = h.snapshots ++ r ∷ []; written = h.written ++ r.snapshot ∷ [] })
inserted-Ok run_id gens h r none_yet fine ok = record {
  unique = count_run-insert run_id h.snapshots r none_yet ok.unique;
  known =
      All-append _ h.snapshots (r ∷ [])
        (more_written run_id h.written h.posted (r.snapshot ∷ []) h.snapshots ok.known)
        ((λ own. inr (Among-last r.snapshot h.written)), tt);
  whole = All-append _ h.written (r.snapshot ∷ []) ok.whole (fine, tt);
}

posted-Ok :
    (run_id : ℕ) (gens : List ChatGeneration) (h : History) (r : SnapshotRow)
    → has_run r.snapshot.compare_run_id h.snapshots ≡ false
    → HistoryOk run_id gens h
    → HistoryOk run_id gens
        (record h { snapshots = h.snapshots ++ r ∷ []; posted = h.posted ++ r.snapshot ∷ [] })
posted-Ok run_id gens h r none_yet ok = record {
  unique = count_run-insert run_id h.snapshots r none_yet ok.unique;
  known =
      All-append _ h.snapshots (r ∷ [])
        (more_posted run_id h.written h.posted (r.snapshot ∷ []) h.snapshots ok.known)
        ((λ own. inl (Among-last r.snapshot h.posted)), tt);
  whole = ok.whole;
}

pub post-Ok :
    (run_id : ℕ) (gens : List ChatGeneration) (h : History) (r : SnapshotRow)
    → HistoryOk run_id gens h
    → HistoryOk run_id gens (post_snapshot r h)
unfolding post_snapshot prune_history
post-Ok run_id gens h r ok = elim (Bool-cases (has_run r.snapshot.compare_run_id h.snapshots)) [
  | inl there ↦ simp there ok
  | inr none_yet ↦
      simp none_yet (prune-Ok run_id r.session_id gens _ (posted-Ok run_id gens h r none_yet ok))
]

pub post-Recorded :
    (run_id : ℕ) (h : History) (r : SnapshotRow)
    → Recorded run_id h
    → Recorded run_id (post_snapshot r h)
unfolding post_snapshot
post-Recorded run_id h r (inr m) =
    elim (Bool-cases (has_run r.snapshot.compare_run_id h.snapshots)) [
      | inl there ↦ simp there (inr m)
      | inr none_yet ↦ simp none_yet (inr m)
    ]
post-Recorded run_id h r (inl (c, (m, own))) =
    elim (Bool-cases (has_run r.snapshot.compare_run_id h.snapshots)) [
      | inl there ↦ simp there (inl (c, (m, own)))
      | inr none_yet ↦ simp none_yet (inl (c, (Among-append c h.posted (r.snapshot ∷ []) m, own)))
    ]

-- a row of the run stands for a snapshot that was inserted
found-Recorded :
    (run_id : ℕ) (written posted : List CompareSnapshot) (rows : List SnapshotRow)
    → All (Origin run_id written posted) rows
    → has_run (some run_id) rows ≡ true
    → ((c : CompareSnapshot) × (Among c posted × (is_run run_id c ≡ true)))
      ⊎ ((c : CompareSnapshot) × Among c written)
unfolding has_run
found-Recorded run_id written posted [] h e = absurd (ground (arith, e))
found-Recorded run_id written posted (r ∷ rows) h e = elim (Bool-cases (is_run run_id r.snapshot)) [
  | inl own ↦ elim (h.0 own) [ inl m ↦ inl (r.snapshot, (m, own)) | inr m ↦ inr (r.snapshot, m) ]
  | inr other ↦ found-Recorded run_id written posted rows h.1 (ground (arith, e, other))
]

-- the barrier's insert keeps this, and afterwards a snapshot of the run has been inserted
pub insert-Ok :
    (run_id : ℕ) (gens : List ChatGeneration) (h : History) (r : SnapshotRow)
    → (any_running gens ≡ false) × (r.snapshot ≡ assemble run_id gens)
    → r.snapshot.compare_run_id ≡ some run_id
    → HistoryOk run_id gens h
    → HistoryOk run_id gens (insert_snapshot r h) × Recorded run_id (insert_snapshot r h)
unfolding insert_snapshot
insert-Ok run_id gens h r fine own ok =
    elim (Bool-cases (has_run r.snapshot.compare_run_id h.snapshots)) [
      | inl there ↦ simp there (
        ok,
        found-Recorded run_id h.written h.posted h.snapshots ok.known
            (sym (ap (λ o. has_run o h.snapshots) own) ∙ there),
      )
      | inr none_yet ↦ simp none_yet (
        inserted-Ok run_id gens h r none_yet fine ok,
        inr (r.snapshot, Among-last r.snapshot h.written),
      )
    ]

no_written :
    (run_id : ℕ) (gens others : List ChatGeneration) (written : List CompareSnapshot)
    → any_running gens ≡ true
    → All (λ c. (any_running gens ≡ false) × (c ≡ assemble run_id gens)) written
    → All (λ c. (any_running others ≡ false) × (c ≡ assemble run_id others)) written
no_written run_id gens others [] runs h = tt
no_written run_id gens others (c ∷ written) runs h = absurd (ground (arith, runs, h.0.0))

-- while a lane runs, the barrier has written nothing, so the rows of the lanes may change
pub running-Ok :
    (run_id : ℕ) (gens others : List ChatGeneration) (h : History)
    → any_running gens ≡ true
    → HistoryOk run_id gens h
    → HistoryOk run_id others h
running-Ok run_id gens others h runs ok = record {
  unique = ok.unique;
  known = ok.known;
  whole = no_written run_id gens others h.written runs ok.whole;
}

none_known :
    (run_id : ℕ) (rows : List SnapshotRow)
    → has_run (some run_id) rows ≡ false
    → All (Origin run_id [] []) rows
unfolding has_run
none_known run_id [] e = tt
none_known run_id (r ∷ rows) e = elim (Bool-cases (is_run run_id r.snapshot)) [
  | inl own ↦ absurd (ground (arith, e, own))
  | inr other ↦ (
    (λ own. absurd (ground (arith, own, other))),
    none_known run_id rows (ground (arith, e, other)),
  )
]

-- the history of the other runs at the launch
pub launch-Ok :
    (run_id : ℕ) (gens : List ChatGeneration) (cs : List SnapshotRow)
    → has_run (some run_id) cs ≡ false
    → HistoryOk run_id gens (record { snapshots = cs; written = []; posted = [] })
launch-Ok run_id gens cs clear = record {
  unique = omega (arith, count_run-none run_id cs clear);
  known = none_known run_id cs clear;
  whole = tt;
}
