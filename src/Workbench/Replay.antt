-- ===== src/Workbench/Replay.antt =====
-- Every subscriber of a generation reads the completion, each part of it once and in order.
use acs_base_model_api.Base.{
  ℕ, zero, suc, ◌≡◌, refl, ap, ◌∙◌, Bool, true, false, ◌⊎◌, inl, inr, List, [], ◌∷◌, ◌++◌, map,
  arith,
}
use acs_base_model_api.Base.Lists.{All, All-map, All-append}
use acs_base_model_api.Base.Text.{Text}
use acs_base_model_api.Workbench.{
  Frame, Phase, live, ended, closed, GenerationState, put_nowait, new_state, broadcast,
  broadcast_status, mark_done, StatusInfo,
}
use acs_base_model_api.Workbench.Absorb.{JsonLibrary}
use acs_base_model_api.Workbench.Task.{Task, next_event, start_task}
use acs_base_model_api.Workbench.Finish.{Settings, finish_task, terminal_status}
use acs_base_model_api.Workbench.Live.{
  is_running, subscribe, live_round, disconnect, update_at, Step, event, exhausted, cancel, finish,
  arrive, round, leave, Reach, fresh, later,
}
use acs_base_model_api.Workbench.Frames.{NoText, Sent, Moves, next_event-Moves}
use acs_base_model_api.Workbench.Reader.{Reads, OkIn, Ok, put_nowait-Ok, finished-Ok}
use acs_base_model_api.Workbench.Generator.{open_live-Ok, live_round-Ok, disconnect-Ok}

module _ {ℓ κ} {A : Type ℓ} (P : A → Type κ) where
  pub All-update :
      (i : ℕ) (f : A → A) (xs : List A)
      → ((x : A) → P x → P (f x))
      → All P xs
      → All P (update_at i f xs)
  unfolding update_at
  All-update i f [] step h = tt
  All-update zero f (x ∷ xs) step h = (step x h.0, h.1)
  All-update (suc i) f (x ∷ xs) step h = (h.0, All-update i f xs step h.1)

module _ {ℓ κ μ} {A : Type ℓ} (P : A → Type κ) (Q : A → Type μ) where
  pub All-mapped :
      (f : A → A) (xs : List A) → ((x : A) → P x → Q (f x)) → All P xs → All Q (map f xs)
  All-mapped f [] step h = tt
  All-mapped f (x ∷ xs) step h = (step x h.0, All-mapped f xs step h.1)

abbrev pub Readers : JsonLibrary → GenerationState → Type 0
Readers lib s = All (Ok lib (is_running s.status) s.completion_text) s.subscribers

-- the invariant of a generation: its task has left the loop when it is no longer running
pub record Inv (lib : JsonLibrary) (t : Task) : Type 0 where
  pub readers : Readers lib t.state
  pub last : NoText lib t.state.last_status_frame
  pub stopped : (is_running t.state.status ≡ true) ⊎ (t.looping ≡ false)

Sent-Readers :
    (lib : JsonLibrary) (f : Frame) (s t : GenerationState)
    → Sent lib f s t
    → is_running s.status ≡ true
    → Readers lib s
    → Readers lib t
Sent-Readers lib f s t sent runs h =
    rw (sent.queues, sent.text, sent.status, runs)
      (All-mapped _ _ (put_nowait f) s.subscribers
        (λ l. put_nowait-Ok lib f s.completion_text l sent.no_done) (rw runs at h))

moved-Inv :
    (lib : JsonLibrary) (t u : Task)
    → Moves lib t.state u.state
    → is_running t.state.status ≡ true
    → Inv lib t
    → Inv lib u
moved-Inv lib t u (inl (f, sent)) runs inv = record {
  readers = Sent-Readers lib f t.state u.state sent runs inv.readers;
  last = sent.last inv.last;
  stopped = inl (ap is_running sent.status ∙ runs);
}
moved-Inv lib t u (inr same) runs inv = record {
  readers = rw same inv.readers;
  last = rw same inv.last;
  stopped = inl (ap (λ s. is_running s.status) same ∙ runs);
}

-- a task in its loop is that of a running generation
looping-Running :
    (lib : JsonLibrary) (t : Task) → Inv lib t → t.looping ≡ true → is_running t.state.status ≡ true
looping-Running lib t inv e = elim inv.stopped [
  | inl runs ↦ runs
  | inr left ↦ absurd (ground arith)
]

terminal_status-Ends :
    (was_cancelled : Bool) (t : Task) → is_running (terminal_status was_cancelled t) ≡ false
unfolding terminal_status
terminal_status-Ends was_cancelled t = ground arith

finish_task-Inv :
    (lib : JsonLibrary) (settings : Settings) (was_cancelled : Bool) (t : Task)
    → t.looping ≡ false
    → is_running t.state.status ≡ true
    → Inv lib t
    → Inv lib (finish_task settings was_cancelled t)
unfolding finish_task broadcast mark_done
finish_task-Inv lib settings was_cancelled t left runs inv = record {
  readers = rw (terminal_status-Ends was_cancelled t) (
      All-mapped _ _ (put_nowait _) t.state.subscribers
        (λ l. finished-Ok lib _ t.state.completion_text l refl) (rw runs at inv.readers));
  last = inv.last;
  stopped = inr left;
}

step-Inv :
    (lib : JsonLibrary) (settings : Settings) {t u : Task}
    → Step lib settings t u
    → Inv lib t
    → Inv lib u
unfolding subscribe
step-Inv lib settings {t} (event e looping) inv =
    moved-Inv lib t (next_event lib e t) (next_event-Moves lib e t)
      (looping-Running lib t inv looping) inv
step-Inv lib settings {t} (exhausted looping) inv = record {
  readers = inv.readers;
  last = inv.last;
  stopped = inr refl;
}
step-Inv lib settings cancel inv = record {
  readers = inv.readers;
  last = inv.last;
  stopped = inv.stopped;
}
step-Inv lib settings {t} (finish was_cancelled seen left runs) inv =
    finish_task-Inv lib settings was_cancelled t left runs inv
step-Inv lib settings {t} (arrive since) inv = record {
  readers =
      All-append _ t.state.subscribers (_ ∷ []) inv.readers
        (open_live-Ok lib since t.state inv.last, tt);
  last = inv.last;
  stopped = inv.stopped;
}
step-Inv lib settings {t} (round i) inv = record {
  readers =
      All-update _ i (live_round t.state) t.state.subscribers (live_round-Ok lib t.state)
        inv.readers;
  last = inv.last;
  stopped = inv.stopped;
}
step-Inv lib settings {t} (leave i) inv = record {
  readers =
      All-update _ i disconnect t.state.subscribers
        (disconnect-Ok lib (is_running t.state.status) t.state.completion_text) inv.readers;
  last = inv.last;
  stopped = inv.stopped;
}

start_task-Inv :
    (lib : JsonLibrary) (sending : StatusInfo) (now : ℕ)
    → Inv lib (start_task sending now new_state)
unfolding start_task broadcast_status broadcast
start_task-Inv lib sending now = record { readers = tt; last = refl; stopped = inl refl }

pub reach-Inv :
    (lib : JsonLibrary) (settings : Settings) {t : Task} → Reach lib settings t → Inv lib t
reach-Inv lib settings (fresh sending now) = start_task-Inv lib sending now
reach-Inv lib settings (later r step) = step-Inv lib settings step (reach-Inv lib settings r)

-- what a subscriber reads: all of the completion, with what is still in the queue of a live one
abbrev pub ReadsIn :
    JsonLibrary → Text → (start : ℕ) → (yielded queue : List Frame) → Phase → Type 0
ReadsIn lib text start yielded queue live = Reads lib text start (yielded ++ queue)
ReadsIn lib text start yielded queue ended = Reads lib text start yielded
ReadsIn lib text start yielded queue closed = Unit

OkIn-ReadsIn :
    (lib : JsonLibrary) (r : Bool) (text : Text) (start : ℕ) (yielded queue : List Frame)
    (phase : Phase)
    → OkIn lib r text start yielded queue phase
    → ReadsIn lib text start yielded queue phase
OkIn-ReadsIn lib r text start yielded queue live h = h.0
OkIn-ReadsIn lib r text start yielded queue ended h = h.1
OkIn-ReadsIn lib r text start yielded queue closed h = tt

-- In every state that a generation and its subscribers can reach, a subscriber reads the completion
-- without a gap or a repetition: the text before the offset of its replay, the texts of the frames
-- that it was sent and, while it is live, those of the frames in its queue are the completion text
-- that the task has accumulated.
pub subscribers-Read :
    (lib : JsonLibrary) (settings : Settings) (t : Task)
    → Reach lib settings t
    → All
        (λ l. ReadsIn lib t.state.completion_text l.start l.yielded l.queue l.phase)
        t.state.subscribers
subscribers-Read lib settings t r =
    All-map
      (λ l.
        OkIn-ReadsIn lib (is_running t.state.status) t.state.completion_text l.start l.yielded
          l.queue l.phase)
      t.state.subscribers (reach-Inv lib settings r).readers
