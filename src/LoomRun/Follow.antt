-- ===== src/LoomRun/Follow.antt =====
-- What one subscriber of the loom shows of a branch, under the frames sent to it and the steps of its
-- generator.
use acs_base_model_api.Base.{
  ℕ, ◌<◌, ◌≤◌, ◌≡◌, refl, sym, ◌∙◌, Bool, true, false, ◌⊎◌, inl, inr, List, [], ◌∷◌, ◌++◌, arith,
}
use acs_base_model_api.Base.Lists.{All, All-append}
use acs_base_model_api.Base.Text.{Text}
use acs_base_model_api.Workbench.{Phase, live, ended, closed}
use acs_base_model_api.Workbench.Live.{close_phase}
use acs_base_model_api.LoomRun.{LoomFrame, LoomSubscriber, push_live, put_nowait}
use acs_base_model_api.LoomRun.Live.{is_done, disconnect}
use acs_base_model_api.LoomRun.Shown.{show, show-append, Sets}

-- no frame but the last one of a queue is a done frame
abbrev pub DoneLast : List LoomFrame → Type 0
DoneLast [] = Unit
DoneLast (f ∷ fs) = ((is_done f ≡ false) ⊎ (fs ≡ [])) × DoneLast fs

abbrev pub QueueOk : (runs : Bool) → List LoomFrame → Type 0
QueueOk true fs = All (λ f. is_done f ≡ false) fs
QueueOk false fs = DoneLast fs

NoDone-DoneLast :
    (fs : List LoomFrame) (f : LoomFrame)
    → All (λ g. is_done g ≡ false) fs
    → DoneLast (fs ++ f ∷ [])
NoDone-DoneLast [] f h = (inr refl, tt)
NoDone-DoneLast (g ∷ fs) f h = (inl h.0, NoDone-DoneLast fs f h.1)

-- `k` branches are replayed, `yielded` was sent and `queue` will be: with the replay that is still to
-- come, the text is shown
pub record Follow (n i : ℕ) (text : Text) (k : ℕ) (yielded queue : List LoomFrame) : Type 0 where
  pub past : i < k → show n i queue (show n i yielded []) ≡ text
  pub ahead : k ≤ i → (show n i yielded [] ≡ []) × (show n i queue text ≡ text)

module _ (n i : ℕ) where
  abbrev pub OkIn :
      (runs : Bool) → Text → (k : ℕ) → (yielded queue : List LoomFrame) → Phase → Type 0
  OkIn r text k yielded queue live = Follow n i text k yielded queue × QueueOk r queue
  OkIn r text k yielded queue ended = (r ≡ false) × (show n i yielded [] ≡ text)
  OkIn r text k yielded queue closed = Unit

  abbrev pub Ok : (runs : Bool) → Text → LoomSubscriber → Type 0
  Ok r text l = OkIn r text l.replayed l.yielded l.queue l.phase

  push-Follow :
      (f : LoomFrame) (before after : Text) (k : ℕ) (yielded queue : List LoomFrame)
      → Sets n i f before after
      → Follow n i before k yielded queue
      → Follow n i after k yielded (queue ++ f ∷ [])
  push-Follow f before after k yielded queue (inl (same, eq)) h = record {
    past = λ lt. show-append n i queue (f ∷ []) (show n i yielded []) ∙ same _ ∙ h.past lt ∙ sym eq;
    ahead = λ le.
        ((h.ahead le).0, show-append n i queue (f ∷ []) after ∙ same _ ∙ rw eq ((h.ahead le).1));
  }
  push-Follow f before after k yielded queue (inr whole) h = record {
    past = λ lt. show-append n i queue (f ∷ []) (show n i yielded []) ∙ whole _;
    ahead = λ le. ((h.ahead le).0, show-append n i queue (f ∷ []) after ∙ whole _);
  }

  push-OkIn :
      (f : LoomFrame) (before after : Text) (k : ℕ) (yielded queue : List LoomFrame) (phase : Phase)
      → Sets n i f before after
      → is_done f ≡ false
      → OkIn true before k yielded queue phase
      → OkIn true after k yielded (push_live f phase queue) phase
  unfolding push_live
  push-OkIn f before after k yielded queue live sets e h = (
    push-Follow f before after k yielded queue sets h.0,
    All-append (λ g. is_done g ≡ false) queue (f ∷ []) h.1 (e, tt),
  )
  push-OkIn f before after k yielded queue ended sets e h = absurd (ground (arith, h.0))
  push-OkIn f before after k yielded queue closed sets e h = tt

  -- the frame of a running generation
  pub put_nowait-Ok :
      (f : LoomFrame) (before after : Text) (l : LoomSubscriber)
      → Sets n i f before after
      → is_done f ≡ false
      → Ok true before l
      → Ok true after (put_nowait f l)
  unfolding put_nowait
  put_nowait-Ok f before after l = push-OkIn f before after l.replayed l.yielded l.queue l.phase

  done-OkIn :
      (f : LoomFrame) (text : Text) (k : ℕ) (yielded queue : List LoomFrame) (phase : Phase)
      → Sets n i f text text
      → OkIn true text k yielded queue phase
      → OkIn false text k yielded (push_live f phase queue) phase
  unfolding push_live
  done-OkIn f text k yielded queue live sets h =
      (push-Follow f text text k yielded queue sets h.0, NoDone-DoneLast queue f h.1)
  done-OkIn f text k yielded queue ended sets h = absurd (ground (arith, h.0))
  done-OkIn f text k yielded queue closed sets h = tt

  -- the frame that ends a generation
  pub finished-Ok :
      (f : LoomFrame) (text : Text) (l : LoomSubscriber)
      → Sets n i f text text
      → Ok true text l
      → Ok false text (put_nowait f l)
  unfolding put_nowait
  finished-Ok f text l = done-OkIn f text l.replayed l.yielded l.queue l.phase

  pub disconnect-Ok :
      (r : Bool) (text : Text) (l : LoomSubscriber) → Ok r text l → Ok r text (disconnect l)
  unfolding disconnect
  disconnect-Ok r text l h = closes l.phase h
    where
      closes :
          (phase : Phase)
          → OkIn r text l.replayed l.yielded l.queue phase
          → OkIn r text l.replayed l.yielded l.queue (close_phase phase)
      closes live h = tt
      closes ended h = h
      closes closed h = tt
