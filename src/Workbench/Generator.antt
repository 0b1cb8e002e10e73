-- ===== src/Workbench/Generator.antt =====
-- What one subscriber has read and will read of the completion, under the steps of its generator.
use mathlib.Core.List.{append_assoc, append-nil}
use acs_base_model_api.Base.{
  ℕ, ◌≤◌, ◌≡◌, refl, Bool, true, false, Bool-cases, Option-cases, inl, inr, Option, none, some,
  List, [], ◌∷◌, ◌++◌, if◌then◌else◌, arith,
}
use acs_base_model_api.Base.Lists.{length, drop, take-append-drop}
use acs_base_model_api.Base.Text.{Text}
use acs_base_model_api.Base.Json.{ℤ, pos, negsuc}
use acs_base_model_api.Workbench.{
  RunStatus, running, completed, cancelled, failed, Frame, Phase, live, ended, closed, Subscriber,
  GenerationState,
}
use acs_base_model_api.Workbench.Absorb.{JsonLibrary}
use acs_base_model_api.Workbench.Live.{
  is_running, is_done, last_status, replay_start, open_live, done_of, loop_round, round_in,
  live_round, close_phase, disconnect,
}
use acs_base_model_api.Workbench.Frames.{frame_text, texts, NoText}
use acs_base_model_api.Workbench.Reader.{QueueOk, Reads, OkIn, Ok, Reads-snoc}

replay_start-Bound : (since : Option ℤ) (text : Text) → replay_start since text ≤ length text
unfolding replay_start
replay_start-Bound none text = omega arith
replay_start-Bound (some (pos n)) text = ground arith
replay_start-Bound (some (negsuc k)) text = omega arith

empty-QueueOk : (r : Bool) → QueueOk r []
empty-QueueOk true = tt
empty-QueueOk false = tt

last_status-Text :
    (lib : JsonLibrary) (status : RunStatus) (o : Option Frame)
    → NoText lib o
    → texts lib (last_status status o) ≡ []
unfolding last_status
last_status-Text lib running none h = refl
last_status-Text lib running (some f) h = rw h refl
last_status-Text lib completed o h = refl
last_status-Text lib cancelled o h = refl
last_status-Text lib failed o h = refl

-- a new subscriber has the whole completion, from its replay on
pub open_live-Ok :
    (lib : JsonLibrary) (since : Option ℤ) (s : GenerationState)
    → NoText lib s.last_status_frame
    → Ok lib (is_running s.status) s.completion_text (open_live since s)
unfolding open_live
open_live-Ok lib since s h =
    let start = replay_start since s.completion_text in
    (
      (
        replay_start-Bound since s.completion_text,
        rw
            (
              append-nil (last_status s.status s.last_status_frame),
              last_status-Text lib s.status s.last_status_frame h,
              append-nil (drop start s.completion_text),
            )
            (take-append-drop start s.completion_text),
      ),
      empty-QueueOk (is_running s.status),
    )

done_of-Text : (lib : JsonLibrary) (s : GenerationState) → frame_text lib (done_of s) ≡ []
unfolding done_of
done_of-Text lib s = elim (Option-cases s.usage) [ inl e ↦ rw e refl | inr (u, e) ↦ rw e refl ]

-- a frame is moved from the queue to what was yielded
move-Reads :
    (lib : JsonLibrary) (text : Text) (start : ℕ) (yielded queue : List Frame) (f : Frame)
    → Reads lib text start (yielded ++ f ∷ queue)
    → Reads lib text start ((yielded ++ f ∷ []) ++ queue)
move-Reads lib text start yielded queue f h = rw (append_assoc yielded (f ∷ []) queue) h

taken-OkIn :
    (lib : JsonLibrary) (r : Bool) (text : Text) (start : ℕ) (yielded queue : List Frame)
    (f : Frame)
    → OkIn lib r text start yielded (f ∷ queue) live
    → OkIn lib r text start (yielded ++ f ∷ []) queue (if is_done f then ended else live)
taken-OkIn lib true text start yielded queue f (reads, (plain, rest)) =
    rw plain (move-Reads lib text start yielded queue f reads, rest)
taken-OkIn lib false text start yielded queue f (reads, (inl plain, rest)) =
    rw plain (move-Reads lib text start yielded queue f reads, rest)
taken-OkIn lib false text start yielded queue f (reads, (inr alone, rest)) =
    elim (Bool-cases (is_done f)) [
      | inl last ↦ rw last (refl, rw alone at reads)
      | inr plain ↦ rw plain (move-Reads lib text start yielded queue f reads, rest)
    ]

-- the frame that ends an empty queue adds no text
last-Reads :
    (lib : JsonLibrary) (text : Text) (start : ℕ) (yielded : List Frame) (f : Frame)
    → frame_text lib f ≡ []
    → Reads lib text start (yielded ++ [])
    → Reads lib text start (yielded ++ f ∷ [])
last-Reads lib text start yielded f empty h =
    rw (empty, append-nil text) at
      (Reads-snoc lib text start yielded f (rw (append-nil yielded) at h))

idle-Ok :
    (lib : JsonLibrary) (r : Bool) (text : Text) (start : ℕ) (yielded : List Frame) (f : Frame)
    → frame_text lib f ≡ []
    → OkIn lib r text start yielded [] live
    → Ok lib r text (
        if r
        then record { queue = []; start = start; yielded = yielded; phase = live }
        else record { queue = []; start = start; yielded = yielded ++ f ∷ []; phase = ended })
idle-Ok lib true text start yielded f empty h = h
idle-Ok lib false text start yielded f empty h =
    (refl, last-Reads lib text start yielded f empty h.0)

loop_round-Ok :
    (lib : JsonLibrary) (s : GenerationState) (start : ℕ) (yielded queue : List Frame)
    → OkIn lib (is_running s.status) s.completion_text start yielded queue live
    → Ok lib (is_running s.status) s.completion_text (loop_round s start yielded queue)
unfolding loop_round
loop_round-Ok lib s start yielded [] h =
    idle-Ok lib (is_running s.status) s.completion_text start yielded (done_of s)
      (done_of-Text lib s) h
loop_round-Ok lib s start yielded (f ∷ queue) h =
    taken-OkIn lib (is_running s.status) s.completion_text start yielded queue f h

round_in-Ok :
    (lib : JsonLibrary) (s : GenerationState) (phase : Phase) (l : Subscriber)
    → l.phase ≡ phase
    → Ok lib (is_running s.status) s.completion_text l
    → Ok lib (is_running s.status) s.completion_text (round_in s phase l)
unfolding round_in
round_in-Ok lib s live l e h = loop_round-Ok lib s l.start l.yielded l.queue (rw e at h)
round_in-Ok lib s ended l e h = h
round_in-Ok lib s closed l e h = h

pub live_round-Ok :
    (lib : JsonLibrary) (s : GenerationState) (l : Subscriber)
    → Ok lib (is_running s.status) s.completion_text l
    → Ok lib (is_running s.status) s.completion_text (live_round s l)
unfolding live_round
live_round-Ok lib s l h = round_in-Ok lib s l.phase l refl h

closed-OkIn :
    (lib : JsonLibrary) (r : Bool) (text : Text) (start : ℕ) (yielded queue : List Frame)
    (phase : Phase)
    → OkIn lib r text start yielded queue phase
    → OkIn lib r text start yielded queue (close_phase phase)
closed-OkIn lib r text start yielded queue live h = tt
closed-OkIn lib r text start yielded queue ended h = h
closed-OkIn lib r text start yielded queue closed h = tt

pub disconnect-Ok :
    (lib : JsonLibrary) (r : Bool) (text : Text) (l : Subscriber)
    → Ok lib r text l
    → Ok lib r text (disconnect l)
unfolding disconnect
disconnect-Ok lib r text l = closed-OkIn lib r text l.start l.yielded l.queue l.phase
