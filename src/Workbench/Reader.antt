-- ===== src/Workbench/Reader.antt =====
-- What one subscriber has read and will read of the completion, when a frame is sent to it.
use mathlib.Core.List.{append_assoc, append-nil}
use acs_base_model_api.Base.{
  ℕ, zero, suc, ◌≤◌, ◌≡◌, refl, sym, ap, ◌∙◌, Bool, true, false, ◌⊎◌, inl, inr, List, [], ◌∷◌, ◌++◌,
  arith,
}
use acs_base_model_api.Base.Lists.{length, length-append, take, All, All-append}
use acs_base_model_api.Base.Text.{Text}
use acs_base_model_api.Workbench.{
  Frame, Phase, live, ended, closed, Subscriber, push_live, put_nowait,
}
use acs_base_model_api.Workbench.Absorb.{JsonLibrary}
use acs_base_model_api.Workbench.Live.{is_done}
use acs_base_model_api.Workbench.Frames.{frame_text, texts, texts-append}

-- no frame but the last one of a queue is a done frame
abbrev pub DoneLast : List Frame → Type 0
DoneLast [] = Unit
DoneLast (f ∷ fs) = ((is_done f ≡ false) ⊎ (fs ≡ [])) × DoneLast fs

abbrev pub QueueOk : (running : Bool) → List Frame → Type 0
QueueOk true fs = All (λ f. is_done f ≡ false) fs
QueueOk false fs = DoneLast fs

-- the text before the replay's start, and then the text of the frames, are the completion
abbrev pub Reads : JsonLibrary → Text → (start : ℕ) → List Frame → Type 0
Reads lib text start frames = (start ≤ length text) × (take start text ++ texts lib frames ≡ text)

abbrev pub OkIn :
    JsonLibrary
    → (running : Bool) → Text
    → (start : ℕ) → (yielded queue : List Frame) → Phase
    → Type 0
OkIn lib r text start yielded queue live = Reads lib text start (yielded ++ queue) × QueueOk r queue
OkIn lib r text start yielded queue ended = (r ≡ false) × Reads lib text start yielded
OkIn lib r text start yielded queue closed = Unit

abbrev pub Ok : JsonLibrary → (running : Bool) → Text → Subscriber → Type 0
Ok lib r text l = OkIn lib r text l.start l.yielded l.queue l.phase

NoDone-DoneLast :
    (fs : List Frame) (f : Frame) → All (λ g. is_done g ≡ false) fs → DoneLast (fs ++ f ∷ [])
NoDone-DoneLast [] f h = (inr refl, tt)
NoDone-DoneLast (g ∷ fs) f h = (inl h.0, NoDone-DoneLast fs f h.1)

NoDone-weaken : (fs : List Frame) → All (λ f. is_done f ≡ false) fs → DoneLast fs
NoDone-weaken [] h = tt
NoDone-weaken (f ∷ fs) h = (inl h.0, NoDone-weaken fs h.1)

take-append : (n : ℕ) (xs ys : Text) → n ≤ length xs → take n (xs ++ ys) ≡ take n xs
take-append zero xs ys h = refl
take-append (suc n) [] ys h = absurd (omega arith)
take-append (suc n) (x ∷ xs) ys h = ap (λ r. x ∷ r) (take-append n xs ys (omega (arith, h)))

-- one more frame, whose text the completion grows by
pub Reads-snoc :
    (lib : JsonLibrary) (text : Text) (start : ℕ) (fs : List Frame) (f : Frame)
    → Reads lib text start fs
    → Reads lib (text ++ frame_text lib f) start (fs ++ f ∷ [])
Reads-snoc lib text start fs f (bound, reads) =
    let d = frame_text lib f in
    let more = texts-append lib fs (f ∷ []) ∙ ap (λ r. texts lib fs ++ r) (append-nil d) in
    (
      omega (arith, bound, length-append text d),
      rw (take-append start text d bound, more)
          (sym (append_assoc (take start text) (texts lib fs) d) ∙ ap (λ r. r ++ d) reads),
    )

NoDone-snoc :
    (fs : List Frame) (f : Frame)
    → is_done f ≡ false
    → All (λ g. is_done g ≡ false) fs
    → All (λ g. is_done g ≡ false) (fs ++ f ∷ [])
NoDone-snoc fs f e h = All-append (λ g. is_done g ≡ false) fs (f ∷ []) h (e, tt)

-- what `put_nowait` appends is read last
push-Reads :
    (lib : JsonLibrary) (text : Text) (start : ℕ) (yielded queue : List Frame) (f : Frame)
    → Reads lib text start (yielded ++ queue)
    → Reads lib (text ++ frame_text lib f) start (yielded ++ (queue ++ f ∷ []))
push-Reads lib text start yielded queue f h =
    rw⁻¹ (append_assoc yielded queue (f ∷ [])) (Reads-snoc lib text start (yielded ++ queue) f h)

push-OkIn :
    (lib : JsonLibrary) (f : Frame) (text : Text) (start : ℕ) (yielded queue : List Frame)
    (phase : Phase)
    → is_done f ≡ false
    → OkIn lib true text start yielded queue phase
    → OkIn lib true (text ++ frame_text lib f) start yielded (push_live f phase queue) phase
unfolding push_live
push-OkIn lib f text start yielded queue live e h =
    (push-Reads lib text start yielded queue f h.0, NoDone-snoc queue f e h.1)
push-OkIn lib f text start yielded queue ended e h = absurd (ground (arith, h.0))
push-OkIn lib f text start yielded queue closed e h = tt

-- the frame of a running generation
pub put_nowait-Ok :
    (lib : JsonLibrary) (f : Frame) (text : Text) (l : Subscriber)
    → is_done f ≡ false
    → Ok lib true text l
    → Ok lib true (text ++ frame_text lib f) (put_nowait f l)
unfolding put_nowait
put_nowait-Ok lib f text l = push-OkIn lib f text l.start l.yielded l.queue l.phase

done-OkIn :
    (lib : JsonLibrary) (f : Frame) (text : Text) (start : ℕ) (yielded queue : List Frame)
    (phase : Phase)
    → frame_text lib f ≡ []
    → OkIn lib true text start yielded queue phase
    → OkIn lib false text start yielded (push_live f phase queue) phase
unfolding push_live
done-OkIn lib f text start yielded queue live e h = (
  rw (e, append-nil text) at (push-Reads lib text start yielded queue f h.0),
  NoDone-DoneLast queue f h.1,
)
done-OkIn lib f text start yielded queue ended e h = absurd (ground (arith, h.0))
done-OkIn lib f text start yielded queue closed e h = tt

-- the frame that ends a generation
pub finished-Ok :
    (lib : JsonLibrary) (f : Frame) (text : Text) (l : Subscriber)
    → frame_text lib f ≡ []
    → Ok lib true text l
    → Ok lib false text (put_nowait f l)
unfolding put_nowait
finished-Ok lib f text l = done-OkIn lib f text l.start l.yielded l.queue l.phase
