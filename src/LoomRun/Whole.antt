-- ===== src/LoomRun/Whole.antt =====
-- What the subscribers of a loom's generation show of a branch, in every state that can be reached.
use acs_base_model_api.Base.{
  ℕ, ◌<◌, ◌≡◌, refl, sym, Bool, true, false, ◌⊎◌, inl, inr, List, [], ◌∷◌, arith,
}
use acs_base_model_api.Base.Lists.{All, All-append, All-map}
use acs_base_model_api.Base.Text.{Text}
use acs_base_model_api.Workbench.{Phase, live, ended, closed}
use acs_base_model_api.Workbench.Live.{is_running}
use acs_base_model_api.Workbench.Replay.{All-update, All-mapped}
use acs_base_model_api.LoomRun.{
  LoomFrame, LoomSubscriber, LoomGenerationState, put_nowait, broadcast, init, mark_done,
}
use acs_base_model_api.LoomRun.Chunk.{IntLibrary}
use acs_base_model_api.LoomRun.Task.{LoomTask, start_task, branch_text, next_event}
use acs_base_model_api.LoomRun.Finish.{LoomSettings, terminal_status, finish_task}
use acs_base_model_api.LoomRun.Live.{
  subscribe, live_round, disconnect, Step, event, exhausted, cancel, finish, arrive, round, leave,
  Reach, fresh, later,
}
use acs_base_model_api.LoomRun.Shown.{show}
use acs_base_model_api.LoomRun.Follow.{OkIn, Ok, Follow, finished-Ok, disconnect-Ok}
use acs_base_model_api.LoomRun.Rounds.{open_live-Ok, live_round-Ok}
use acs_base_model_api.LoomRun.Events.{Good, next_event-Good}

terminal_status-Ends :
    (was_cancelled : Bool) (t : LoomTask) → is_running (terminal_status was_cancelled t) ≡ false
unfolding terminal_status
terminal_status-Ends was_cancelled t = ground arith

module _ (n i : ℕ) (inside : i < n) where
  round-Ok :
      (r : Bool) (s : LoomGenerationState)
      → s.n ≡ n
      → is_running s.status ≡ r
      → (l : LoomSubscriber) → Ok n i r (branch_text i s.branches) l
      → Ok n i r (branch_text i s.branches) (live_round s l)
  round-Ok r s size status l h =
      rw⁻¹ (size, status) (live_round-Ok i s (rw size inside) l (rw (sym size, sym status) at h))

  subscribe-Good : (r : Bool) (s : LoomGenerationState) → Good n i r s → Good n i r (subscribe s)
  unfolding subscribe
  subscribe-Good r s g = record {
    size = g.size;
    status = g.status;
    readers =
        All-append _ s.subscribers (_ ∷ []) g.readers
          (open_live-Ok n i r (branch_text i s.branches) s, tt);
  }

  finish_task-Good :
      (settings : LoomSettings) (was_cancelled : Bool) (t : LoomTask)
      → Good n i true t.state
      → Good n i false (finish_task settings was_cancelled t).state
  unfolding finish_task broadcast mark_done
  finish_task-Good settings was_cancelled t g = record {
    size = g.size;
    status = terminal_status-Ends was_cancelled t;
    readers =
        All-mapped _ _ (put_nowait _) t.state.subscribers
          (λ l. finished-Ok n i _ _ l (inl (λ u. refl, refl))) g.readers;
  }

  -- the generation runs, or the task has left its loop and ended it
  abbrev Inv : LoomTask → Type 0
  Inv t = Good n i true t.state ⊎ ((t.looping ≡ false) × Good n i false t.state)

  abbrev OfState : LoomGenerationState → Bool → Type 0
  OfState s looping = Good n i true s ⊎ ((looping ≡ false) × Good n i false s)

  -- a change of the state that both cases survive
  both :
      (s u : LoomGenerationState) (looping : Bool)
      → ((r : Bool) → Good n i r s → Good n i r u)
      → OfState s looping
      → OfState u looping
  both s u looping step (inl g) = inl (step true g)
  both s u looping step (inr (left, g)) = inr (left, step false g)

  event-Inv :
      (lib : IntLibrary) (e : _) (t : LoomTask)
      → t.looping ≡ true
      → Inv t
      → Inv (next_event lib e t)
  event-Inv lib e t looping (inl g) = inl (next_event-Good n i lib e t g)
  event-Inv lib e t looping (inr (left, g)) = absurd (ground arith)

  exhausted-Inv : (t : LoomTask) → Inv t → Inv (record t { looping = false })
  exhausted-Inv t (inl g) = inl g
  exhausted-Inv t (inr (left, g)) = inr (refl, g)

  finish-Inv :
      (settings : LoomSettings) (was_cancelled : Bool) (t : LoomTask)
      → t.looping ≡ false
      → is_running t.state.status ≡ true
      → Inv t
      → Inv (finish_task settings was_cancelled t)
  unfolding finish_task
  finish-Inv settings was_cancelled t left runs (inl g) =
      inr (left, finish_task-Good settings was_cancelled t g)
  finish-Inv settings was_cancelled t left runs (inr (_, g)) = absurd (ground (arith, g.status))

  step-Inv :
      (lib : IntLibrary) (settings : LoomSettings) {t u : LoomTask}
      → Step lib settings t u
      → Inv t
      → Inv u
  step-Inv lib settings {t} (event e looping) inv = event-Inv lib e t looping inv
  step-Inv lib settings {t} (exhausted looping) inv = exhausted-Inv t inv
  step-Inv lib settings {t} cancel inv =
      both t.state (record t.state { cancel_requested = true }) t.looping
        (λ r g. record { size = g.size; status = g.status; readers = g.readers }) inv
  step-Inv lib settings {t} (finish was_cancelled seen left runs) inv =
      finish-Inv settings was_cancelled t left runs inv
  step-Inv lib settings {t} arrive inv =
      both t.state (subscribe t.state) t.looping (λ r g. subscribe-Good r t.state g) inv
  step-Inv lib settings {t} (round k) inv =
      both t.state (record t.state { subscribers = _ }) t.looping
        (λ r g. record {
          size = g.size;
          status = g.status;
          readers =
              All-update _ k (live_round t.state) t.state.subscribers
                (round-Ok r t.state g.size g.status) g.readers;
        })
        inv
  step-Inv lib settings {t} (leave k) inv =
      both t.state (record t.state { subscribers = _ }) t.looping
        (λ r g. record {
          size = g.size;
          status = g.status;
          readers =
              All-update _ k disconnect t.state.subscribers
                (disconnect-Ok n i r (branch_text i t.state.branches)) g.readers;
        })
        inv

  pub reach-Inv :
      (lib : IntLibrary) (settings : LoomSettings) {t : LoomTask} → Reach lib settings n t → Inv t
  unfolding start_task init
  reach-Inv lib settings fresh = inl (record { size = refl; status = refl; readers = tt })
  reach-Inv lib settings (later r step) = step-Inv lib settings step (reach-Inv lib settings r)

-- what is shown of branch `i`: with its queue and the rest of its replay for a live subscriber
abbrev pub ShowsIn : (n i : ℕ) → Text → (k : ℕ) → (yielded queue : List LoomFrame) → Phase → Type 0
ShowsIn n i text k yielded queue live = Follow n i text k yielded queue
ShowsIn n i text k yielded queue ended = show n i yielded [] ≡ text
ShowsIn n i text k yielded queue closed = Unit

OkIn-ShowsIn :
    (n i : ℕ) (r : Bool) (text : Text) (k : ℕ) (yielded queue : List LoomFrame) (phase : Phase)
    → OkIn n i r text k yielded queue phase
    → ShowsIn n i text k yielded queue phase
OkIn-ShowsIn n i r text k yielded queue live h = h.0
OkIn-ShowsIn n i r text k yielded queue ended h = h.1
OkIn-ShowsIn n i r text k yielded queue closed h = tt

abbrev Readers : (n i : ℕ) → LoomGenerationState → Type 0
Readers n i s =
    All (λ l. ShowsIn n i (branch_text i s.branches) l.replayed l.yielded l.queue l.phase)
      s.subscribers

Good-Readers : (n i : ℕ) (r : Bool) (s : LoomGenerationState) → Good n i r s → Readers n i s
Good-Readers n i r s g =
    All-map
      (λ l. OkIn-ShowsIn n i r (branch_text i s.branches) l.replayed l.yielded l.queue l.phase)
      s.subscribers g.readers

-- In every state that a loom's generation of n branches and its subscribers can reach, and for every
-- branch i below n: a subscriber that sets its text to each frame for that branch shows the whole
-- text that the task has accumulated for it, once its generator has ended; while it is live, it does
-- so when it has read its queue, together with the replay if that is not past the branch yet. An
-- index of a frame is read as one of a Python list, a negative one from the end.
pub branches-Shown :
    (lib : IntLibrary) (settings : LoomSettings) (n i : ℕ) (t : LoomTask)
    → i < n
    → Reach lib settings n t
    → All
        (λ l. ShowsIn n i (branch_text i t.state.branches) l.replayed l.yielded l.queue l.phase)
        t.state.subscribers
branches-Shown lib settings n i t inside r = elim (reach-Inv n i inside lib settings r) [
  | inl g ↦ Good-Readers n i true t.state g
  | inr (left, g) ↦ Good-Readers n i false t.state g
]
