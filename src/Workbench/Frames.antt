-- ===== src/Workbench/Frames.antt =====
-- The completion text that frames carry, and what one round of the task does to the fan-out.
use mathlib.Core.List.{append_assoc, append-nil}
use acs_base_model_api.Base.{
  ℕ, ◌+◌, ◌≡◌, refl, sym, Bool, false, Bool-cases, ◌⊎◌, inl, inr, Option, none, some, List, [], ◌∷◌,
  ◌++◌, map, ◌||◌, leb,
}
use acs_base_model_api.Base.Text.{Text, codes}
use acs_base_model_api.Workbench.{
  Frame, replay_frame, status_frame, chunk_frame, error_frame, internal, GenerationState,
  put_nowait, broadcast, broadcast_status,
}
use acs_base_model_api.Workbench.Absorb.{JsonLibrary, Absorbed, absorb_chunk_text}
use acs_base_model_api.Workbench.Task.{
  Task, Event, status_event, chunk_event, error_event, stream_error, generation_flush_chars,
  generation_flush_interval_ms, get_or, flush_if_due, take_chunk, absorbed, on_chunk, on_exception,
  on_error, on_event, next_event,
}
use acs_base_model_api.Workbench.Live.{is_done}

abbrev delta_of : Option Absorbed → Text
delta_of none = []
delta_of (some a) = a.delta

-- the text that a frame adds for its reader
abbrev pub frame_text : JsonLibrary → Frame → Text
frame_text lib (replay_frame text cursor) = text
frame_text lib (chunk_frame bytes) = delta_of (absorb_chunk_text lib bytes)
frame_text lib _ = []

abbrev pub texts : JsonLibrary → List Frame → Text
texts lib [] = []
texts lib (f ∷ fs) = frame_text lib f ++ texts lib fs

pub texts-append :
    (lib : JsonLibrary) (fs gs : List Frame) → texts lib (fs ++ gs) ≡ texts lib fs ++ texts lib gs
texts-append lib [] gs = refl
texts-append lib (f ∷ fs) gs =
    rw (texts-append lib fs gs)
      (sym (append_assoc (frame_text lib f) (texts lib fs) (texts lib gs)))

-- the last status frame is no text
abbrev pub NoText : JsonLibrary → Option Frame → Type 0
NoText lib none = Unit
NoText lib (some f) = frame_text lib f ≡ []

-- One frame was sent to every subscriber, and the completion grew by its text.
pub record Sent (lib : JsonLibrary) (f : Frame) (s t : GenerationState) : Type 0 where
  pub queues : t.subscribers ≡ map (put_nowait f) s.subscribers
  pub text : t.completion_text ≡ s.completion_text ++ frame_text lib f
  pub status : t.status ≡ s.status
  pub no_done : is_done f ≡ false
  pub last : NoText lib s.last_status_frame → NoText lib t.last_status_frame

-- a round sends one frame, or changes nothing of this
abbrev pub Moves : JsonLibrary → GenerationState → GenerationState → Type 0
Moves lib s t = ((f : Frame) × Sent lib f s t) ⊎ (t ≡ s)

plain-Sent :
    (lib : JsonLibrary) (f : Frame) (s : GenerationState)
    → frame_text lib f ≡ []
    → is_done f ≡ false
    → Sent lib f s (broadcast f s)
unfolding broadcast
plain-Sent lib f s empty no_done = record {
  queues = refl;
  text = rw empty (sym (append-nil s.completion_text));
  status = refl;
  no_done = no_done;
  last = λ h. h;
}

status-Sent :
    (lib : JsonLibrary) (f : Frame) (s : GenerationState)
    → frame_text lib f ≡ []
    → is_done f ≡ false
    → Sent lib f s (broadcast_status f s)
unfolding broadcast_status broadcast
status-Sent lib f s empty no_done = record {
  queues = refl;
  text = rw empty (sym (append-nil s.completion_text));
  status = refl;
  no_done = no_done;
  last = λ h. empty;
}

flush_if_due-state :
    (now : ℕ) (flushes : Bool) (t : Task) → (flush_if_due now flushes t).state ≡ t.state
unfolding flush_if_due
flush_if_due-state now flushes t =
    elim (Bool-cases (
      leb generation_flush_chars t.chars_since_flush
      || leb (t.last_flush_at + generation_flush_interval_ms) now)) [
        | inl due ↦ rw due refl
        | inr early ↦ rw early refl
      ]

take_chunk-Sent :
    (lib : JsonLibrary) (bytes : Text) (usage : Option (ℕ × ℕ)) (a : Absorbed) (t : Task)
    → absorb_chunk_text lib bytes ≡ some a
    → Sent lib (chunk_frame bytes) t.state (take_chunk bytes usage a t).state
unfolding take_chunk broadcast
take_chunk-Sent lib bytes usage a t e = record {
  queues = refl;
  text = rw e refl;
  status = refl;
  no_done = refl;
  last = λ h. h;
}

absorbed-Sent :
    (lib : JsonLibrary) (bytes : Text) (usage : Option (ℕ × ℕ)) (now : ℕ) (flushes : Bool)
    (o : Option Absorbed) (t : Task)
    → absorb_chunk_text lib bytes ≡ o
    → (f : Frame) × Sent lib f t.state (absorbed bytes usage now flushes o t).state
unfolding absorbed on_exception broadcast
absorbed-Sent lib bytes usage now flushes none t e = (
  error_frame 500 (codes "internal_error") internal,
  record {
    queues = refl;
    text = sym (append-nil t.state.completion_text);
    status = refl;
    no_done = refl;
    last = λ h. h;
  },
)
absorbed-Sent lib bytes usage now flushes (some a) t e = (
  chunk_frame bytes,
  rw (flush_if_due-state now flushes (take_chunk bytes usage a t))
      (take_chunk-Sent lib bytes usage a t e),
)

on_event-Sent :
    (lib : JsonLibrary) (e : Event) (t : Task)
    → (f : Frame) × Sent lib f t.state (on_event lib e t).state
unfolding on_event on_error on_exception on_chunk
on_event-Sent lib (status_event info) t =
    (status_frame info, status-Sent lib (status_frame info) t.state refl refl)
on_event-Sent lib (chunk_event bytes usage code now flushes) t =
    absorbed-Sent lib bytes usage now flushes _
      (record t { upstream_status = get_or t.upstream_status code }) refl
on_event-Sent lib (error_event bytes code kind) t = (_, plain-Sent lib _ t.state refl refl)
on_event-Sent lib stream_error t = (_, plain-Sent lib _ t.state refl refl)

pub next_event-Moves :
    (lib : JsonLibrary) (e : Event) (t : Task) → Moves lib t.state (next_event lib e t).state
unfolding next_event on_event
next_event-Moves lib e t = elim (Bool-cases t.state.cancel_requested) [
  | inl stops ↦ simp stops (inr refl)
  | inr goes ↦ simp goes (inl (on_event-Sent lib e t))
]
