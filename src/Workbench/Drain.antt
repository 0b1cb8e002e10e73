-- ===== src/Workbench/Drain.antt =====
-- The subscribers of a generation that has ended are sent the rest of it and a done frame.
use acs_base_model_api.Base.{
  ℕ, zero, suc, ◌≡◌, refl, Bool, true, false, Bool-cases, Option-cases, inl, inr, List, [], ◌∷◌,
  ◌++◌,
}
use acs_base_model_api.Base.Lists.{length, All, All-map}
use acs_base_model_api.Base.Text.{Text}
use acs_base_model_api.Workbench.{Frame, Phase, live, ended, closed, Subscriber, GenerationState}
use acs_base_model_api.Workbench.Absorb.{JsonLibrary}
use acs_base_model_api.Workbench.Task.{Task}
use acs_base_model_api.Workbench.Finish.{Settings}
use acs_base_model_api.Workbench.Live.{
  is_running, is_done, done_of, loop_round, round_in, live_round, Reach,
}
use acs_base_model_api.Workbench.Reader.{Reads, Ok}
use acs_base_model_api.Workbench.Generator.{live_round-Ok}
use acs_base_model_api.Workbench.Replay.{reach-Inv}

-- the generator's loop for a number of rounds
unfoldable pub rounds : ℕ → GenerationState → Subscriber → Subscriber
unfolding live_round
rounds zero s l = l
rounds (suc n) s l = rounds n s (live_round s l)

rounds-Ok :
    (lib : JsonLibrary) (n : ℕ) (s : GenerationState) (l : Subscriber)
    → Ok lib (is_running s.status) s.completion_text l
    → Ok lib (is_running s.status) s.completion_text (rounds n s l)
unfolding rounds
rounds-Ok lib zero s l h = h
rounds-Ok lib (suc n) s l h = rounds-Ok lib n s (live_round s l) (live_round-Ok lib s l h)

-- the generator has ended, and a done frame was the last that it sent
abbrev pub Ended : Subscriber → Type 0
Ended l =
    (l.phase ≡ ended)
    × ((front : List Frame) × (f : Frame) × ((l.yielded ≡ front ++ f ∷ []) × (is_done f ≡ true)))

ended-round : (s : GenerationState) (l : Subscriber) → l.phase ≡ ended → live_round s l ≡ l
unfolding live_round round_in
ended-round s l e = rw e refl

rounds-Ended : (n : ℕ) (s : GenerationState) (l : Subscriber) → Ended l → Ended (rounds n s l)
unfolding rounds
rounds-Ended zero s l h = h
rounds-Ended (suc n) s l h = rounds-Ended n s (live_round s l) (rw (ended-round s l h.0) h)

done_of-Done : (s : GenerationState) → is_done (done_of s) ≡ true
unfolding done_of
done_of-Done s = elim (Option-cases s.usage) [ inl e ↦ rw e refl | inr (u, e) ↦ rw e refl ]

drain :
    (s : GenerationState) (start : ℕ) (yielded queue : List Frame)
    → is_running s.status ≡ false
    → Ended (rounds (length queue) s (loop_round s start yielded queue))
unfolding loop_round rounds live_round round_in
drain s start yielded [] e = rw e (refl, (yielded, done_of s, (refl, done_of-Done s)))
drain s start yielded (f ∷ queue) e = elim (Bool-cases (is_done f)) [
  | inl last ↦ rw last (
      rounds-Ended (suc (length queue)) s
        (record { queue = queue; start = start; yielded = yielded ++ f ∷ []; phase = ended })
        (refl, (yielded, f, (refl, last))))
  | inr plain ↦ rw plain (drain s start (yielded ++ f ∷ []) queue e)
]

-- what becomes of a subscriber within a round for each frame of its queue, and one more
abbrev pub Drains : JsonLibrary → GenerationState → Subscriber → Phase → Type 0
Drains lib s l live =
    let last = rounds (suc (length l.queue)) s l in
    Ended last × Reads lib s.completion_text last.start last.yielded
Drains lib s l ended = Reads lib s.completion_text l.start l.yielded
Drains lib s l closed = Unit

ended-Reads :
    (lib : JsonLibrary) (r : Bool) (text : Text) (l : Subscriber)
    → l.phase ≡ ended
    → Ok lib r text l
    → Reads lib text l.start l.yielded
ended-Reads lib r text l e h = (rw e at h).1

live-Drains :
    (s : GenerationState) (l : Subscriber)
    → is_running s.status ≡ false
    → l.phase ≡ live
    → Ended (rounds (suc (length l.queue)) s l)
unfolding rounds live_round round_in
live-Drains s l stopped e = rw e (drain s l.start l.yielded l.queue stopped)

Ok-Drains :
    (lib : JsonLibrary) (s : GenerationState) (l : Subscriber) (phase : Phase)
    → is_running s.status ≡ false
    → l.phase ≡ phase
    → Ok lib (is_running s.status) s.completion_text l
    → Drains lib s l phase
Ok-Drains lib s l live stopped e h =
    let last = rounds (suc (length l.queue)) s l in
    let done = live-Drains s l stopped e in
    (
      done,
      ended-Reads lib (is_running s.status) s.completion_text last done.0
          (rounds-Ok lib (suc (length l.queue)) s l h),
    )
Ok-Drains lib s l ended stopped e h = ended-Reads lib (is_running s.status) s.completion_text l e h
Ok-Drains lib s l closed stopped e h = tt

-- Once a generation has ended, no subscriber is left waiting: a live one ends within a round for
-- each frame of its queue and one more, the last frame that it is sent is a done frame, and the
-- frames that it was sent give the whole completion from the offset of its replay on.
pub subscribers-Drain :
    (lib : JsonLibrary) (settings : Settings) (t : Task)
    → Reach lib settings t
    → is_running t.state.status ≡ false
    → All (λ l. Drains lib t.state l l.phase) t.state.subscribers
subscribers-Drain lib settings t r stopped =
    All-map (λ l. Ok-Drains lib t.state l l.phase stopped refl) t.state.subscribers
      (reach-Inv lib settings r).readers
