-- ===== src/Workbench/Barrier.antt =====
-- The invariant of the batch-completion barrier, and what its reads and its writes do.
use acs_base_model_api.Base.{
  ℕ, ◌+◌, ◌≤◌, ◌≡◌, refl, ap, true, false, Bool-cases, ◌⊎◌, inl, inr, none, some, List, [], ◌∷◌,
  ◌++◌, nat_eq, arith,
}
use acs_base_model_api.Base.Lists.{All}
use acs_base_model_api.Workbench.Compare.{
  ChatGeneration, CompareSnapshot, is_running_status, any_running, assemble, read_barrier,
}
use acs_base_model_api.Workbench.History.{HistoryOk, Recorded}
use acs_base_model_api.Workbench.Lanes.{
  Pc, streaming, committed, writing, left, Lane, rows, Batch, at_pc,
}

-- a lane that streams has a running row
abbrev pub StreamRuns : Lane → Type 0
StreamRuns l = elim l.pc [ streaming ↦ is_running_status l.row.status ≡ true | _ ↦ Unit ]

-- a lane that does not, has a terminal one
abbrev pub Terminal : Lane → Type 0
Terminal l = elim l.pc [ streaming ↦ Unit | _ ↦ is_running_status l.row.status ≡ false ]

-- a snapshot that is about to be written is that of the lanes' final rows
abbrev pub Writes : ℕ → List ChatGeneration → Lane → Type 0
Writes run_id gens l = elim l.pc [
  | writing c ↦ (any_running gens ≡ false) × (c ≡ assemble run_id gens)
  | _ ↦ Unit
]

-- the lanes whose barrier is still to come
abbrev pub waits : Pc → ℕ
waits streaming = 0
waits committed = 1
waits (writing c) = 1
waits left = 0

abbrev pub pending : List Lane → ℕ
pending [] = 0
pending (l ∷ ls) = waits l.pc + pending ls

pub record Inv (run_id : ℕ) (s : Batch) : Type 0 where
  pub streams : All StreamRuns s.lanes
  pub writers : All (Writes run_id (rows s.lanes)) s.lanes
  pub table : HistoryOk run_id (rows s.lanes) s.history
  pub progress :
      (s.clean ≡ false)
      ⊎ (All Terminal s.lanes
          × ((any_running (rows s.lanes) ≡ true)
              ⊎ ((1 ≤ pending s.lanes) ⊎ Recorded run_id s.history)))

module _ {ℓ κ} {A : Type ℓ} (P : A → Type κ) where
  pub All-at : (before after : List A) (x : A) → All P (before ++ x ∷ after) → P x
  All-at [] after x h = h.0
  All-at (y ∷ before) after x h = All-at before after x h.1

  pub All-swap :
      (before after : List A) (x y : A)
      → P y
      → All P (before ++ x ∷ after)
      → All P (before ++ y ∷ after)
  All-swap [] after x y p h = (p, h.1)
  All-swap (z ∷ before) after x y p h = (h.0, All-swap before after x y p h.1)

pub rows-swap :
    (before after : List Lane) (row : ChatGeneration) (p q : Pc)
    → rows (before ++ at_pc row p ∷ after) ≡ rows (before ++ at_pc row q ∷ after)
rows-swap [] after row p q = refl
rows-swap (l ∷ before) after row p q = ap (λ r. l.row ∷ r) (rows-swap before after row p q)

pub pending-at : (before after : List Lane) (l : Lane) → waits l.pc ≤ pending (before ++ l ∷ after)
pending-at [] after l = omega arith
pending-at (k ∷ before) after l = omega (arith, pending-at before after l)

pub any_running-at :
    (before after : List Lane) (l : Lane)
    → is_running_status l.row.status ≡ true
    → any_running (rows (before ++ l ∷ after)) ≡ true
unfolding any_running
any_running-at [] after l e = ground arith
any_running-at (k ∷ before) after l e = ground (arith, any_running-at before after l e)

pub barrier-Reads :
    (run_id : ℕ) (gens : List ChatGeneration) (c : CompareSnapshot)
    → read_barrier run_id gens ≡ some c
    → (any_running gens ≡ false) × (c ≡ assemble run_id gens)
unfolding read_barrier
barrier-Reads run_id [] c e = absurd (ground arith)
barrier-Reads run_id (row ∷ gens) c e = elim (Bool-cases (any_running (row ∷ gens))) [
  | inl runs ↦ absurd (ground arith)
  | inr quiet ↦ (quiet, ground arith)
]

pub barrier-Bails :
    (run_id : ℕ) (before after : List Lane) (l : Lane)
    → read_barrier run_id (rows (before ++ l ∷ after)) ≡ none
    → any_running (rows (before ++ l ∷ after)) ≡ true
unfolding read_barrier
barrier-Bails run_id [] after l e = ground arith
barrier-Bails run_id (k ∷ before) after l e = ground arith

pub assemble-Run :
    (run_id : ℕ) (gens : List ChatGeneration) → (assemble run_id gens).compare_run_id ≡ some run_id
unfolding assemble
assemble-Run run_id gens = refl

no_writer-one :
    (run_id : ℕ) (gens others : List ChatGeneration) (row : ChatGeneration) (pc : Pc)
    → any_running gens ≡ true
    → Writes run_id gens (at_pc row pc)
    → Writes run_id others (at_pc row pc)
no_writer-one run_id gens others row streaming e h = tt
no_writer-one run_id gens others row committed e h = tt
no_writer-one run_id gens others row (writing c) e h = absurd (ground (arith, h.0))
no_writer-one run_id gens others row left e h = tt

-- while a row runs, no lane is about to write
pub no_writer :
    (run_id : ℕ) (gens others : List ChatGeneration) (ls : List Lane)
    → any_running gens ≡ true
    → All (Writes run_id gens) ls
    → All (Writes run_id others) ls
no_writer run_id gens others [] e h = tt
no_writer run_id gens others (l ∷ ls) e h =
    (no_writer-one run_id gens others l.row l.pc e h.0, no_writer run_id gens others ls e h.1)
