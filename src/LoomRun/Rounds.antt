-- ===== src/LoomRun/Rounds.antt =====
-- What one subscriber of the loom shows of a branch, under the steps of its generator.
use acs_base_model_api.Base.{
  ℕ, suc, ◌<◌, ◌≤◌, ◌≡◌, ◌≢◌, refl, ap, ◌∙◌, Bool, true, false, Bool-cases, Option-cases, ◌⊎◌, inl,
  inr, Option, none, some, List, [], ◌∷◌, ◌++◌, leb, if◌then◌else◌, arith,
}
use acs_base_model_api.Base.Text.{Text}
use acs_base_model_api.Workbench.{
  RunStatus, running, completed, cancelled, failed, StatusInfo, Phase, live, ended, closed,
}
use acs_base_model_api.Workbench.Absorb.{is_empty}
use acs_base_model_api.Workbench.Live.{is_running}
use acs_base_model_api.LoomRun.{LoomFrame, LoomSubscriber, LoomGenerationState}
use acs_base_model_api.LoomRun.Task.{branch_text}
use acs_base_model_api.LoomRun.Live.{
  is_done, last_status, open_live, replay_frames, done_of, loop_round, round_in, live_round,
}
use acs_base_model_api.LoomRun.Shown.{set_slot, show, show-append}
use acs_base_model_api.LoomRun.Follow.{QueueOk, Follow, OkIn, Ok}

module _ (n i : ℕ) where
  last_status-Shown :
      (status : RunStatus) (o : Option StatusInfo) → show n i (last_status status o) [] ≡ []
  unfolding last_status
  last_status-Shown running none = refl
  last_status-Shown running (some info) = refl
  last_status-Shown completed o = refl
  last_status-Shown cancelled o = refl
  last_status-Shown failed o = refl

  empty-QueueOk : (r : Bool) → QueueOk r []
  empty-QueueOk true = tt
  empty-QueueOk false = tt

  -- a new subscriber has the whole branch still to come
  pub open_live-Ok :
      (r : Bool) (text : Text) (s : LoomGenerationState) → Ok n i r text (open_live s)
  unfolding open_live
  open_live-Ok r text s = (
    record {
      past = λ lt. absurd (omega (arith, lt));
      ahead = λ le. (last_status-Shown s.status s.last_status, refl);
    },
    empty-QueueOk r,
  )

  done_of-Shown : (s : LoomGenerationState) (t : Text) → set_slot n i (done_of s) t ≡ t
  unfolding done_of
  done_of-Shown s t = elim (Option-cases s.usage) [ inl e ↦ rw e refl | inr (u, e) ↦ rw e refl ]

  -- a frame is moved from the queue to what was yielded, after the replay
  move-Follow :
      (text : Text) (k : ℕ) (yielded queue : List LoomFrame) (f : LoomFrame)
      → i < k
      → Follow n i text k yielded (f ∷ queue)
      → Follow n i text k (yielded ++ f ∷ []) queue
  move-Follow text k yielded queue f lt h = record {
    past = λ _. rw (show-append n i yielded (f ∷ []) []) (h.past lt);
    ahead = λ le. absurd (omega (arith, lt, le));
  }

  taken-OkIn :
      (r : Bool) (text : Text) (k : ℕ) (yielded queue : List LoomFrame) (f : LoomFrame)
      → i < k
      → OkIn n i r text k yielded (f ∷ queue) live
      → OkIn n i r text k (yielded ++ f ∷ []) queue (if is_done f then ended else live)
  taken-OkIn true text k yielded queue f lt (follows, (plain, rest)) =
      rw plain (move-Follow text k yielded queue f lt follows, rest)
  taken-OkIn false text k yielded queue f lt (follows, (inl plain, rest)) =
      rw plain (move-Follow text k yielded queue f lt follows, rest)
  taken-OkIn false text k yielded queue f lt (follows, (inr alone, rest)) =
      elim (Bool-cases (is_done f)) [
        | inl last ↦
            rw last (refl, show-append n i yielded (f ∷ []) [] ∙ (rw alone at (follows.past lt)))
        | inr plain ↦ rw plain (move-Follow text k yielded queue f lt follows, rest)
      ]

  idle-Ok :
      (r : Bool) (text : Text) (k : ℕ) (yielded : List LoomFrame) (f : LoomFrame)
      → i < k
      → ((t : Text) → set_slot n i f t ≡ t)
      → OkIn n i r text k yielded [] live
      → Ok n i r text (
          if r
          then record { queue = []; replayed = k; yielded = yielded; phase = live }
          else record { queue = []; replayed = k; yielded = yielded ++ f ∷ []; phase = ended })
  idle-Ok true text k yielded f lt same h = h
  idle-Ok false text k yielded f lt same h =
      (refl, show-append n i yielded (f ∷ []) [] ∙ same _ ∙ h.0.past lt)

  loop_round-Ok :
      (s : LoomGenerationState) (text : Text) (k : ℕ) (yielded queue : List LoomFrame)
      → i < k
      → OkIn n i (is_running s.status) text k yielded queue live
      → Ok n i (is_running s.status) text (loop_round s k yielded queue)
  unfolding loop_round
  loop_round-Ok s text k yielded [] lt h =
      idle-Ok (is_running s.status) text k yielded (done_of s) lt (done_of-Shown s) h
  loop_round-Ok s text k yielded (f ∷ queue) lt h =
      taken-OkIn (is_running s.status) text k yielded queue f lt h

  replay-other : (k : ℕ) (text t : Text) → k ≢ i → show n i (replay_frames k text) t ≡ t
  unfolding replay_frames is_empty
  replay-other k [] t ne = refl
  replay-other k (c ∷ text) t ne = ground (arith, ne)

  replay-own : (text : Text) → i < n → show n i (replay_frames i text) [] ≡ text
  unfolding replay_frames is_empty
  replay-own [] lt = refl
  replay-own (c ∷ text) lt = ground (arith, lt)

  -- the next branch of the replay
  replay-Follow :
      (texts : List Text) (k : ℕ) (yielded queue : List LoomFrame)
      → i < n
      → Follow n i (branch_text i texts) k yielded queue
      → Follow n i
          (branch_text i texts)
          (suc k)
          (yielded ++ replay_frames k (branch_text k texts))
          queue
  replay-Follow texts k yielded queue lt h =
      let frames = replay_frames k (branch_text k texts) in
      let split = show-append n i yielded frames [] in
      record {
        past = λ past_k. elim (order k past_k) [
          | inl eq ↦ ap (λ t. show n i queue t) (split ∙ own eq) ∙ (h.ahead (omega (arith, eq))).1
          | inr less ↦
              ap (λ t. show n i queue t) (split ∙ replay-other k _ _ (λ e. omega (arith, e, less)))
              ∙ h.past less
        ];
        ahead = λ le. (
          split ∙ replay-other k _ _ (λ e. omega (arith, e, le)) ∙ (h.ahead (omega (arith, le))).0,
          (h.ahead (omega (arith, le))).1,
        );
      }
    where
      order : (k : ℕ) → i < suc k → (k ≡ i) ⊎ (i < k)
      order k h = ground (arith, h)

      own :
          k ≡ i
          → show n i (replay_frames k (branch_text k texts)) (show n i yielded [])
            ≡ branch_text i texts
      own eq = rw (eq, (h.ahead (omega (arith, eq))).0) (replay-own (branch_text i texts) lt)

  leb-cases : (a b : ℕ) → ((leb a b ≡ true) × (a ≤ b)) ⊎ (leb a b ≡ false)
  leb-cases a b = ground arith

module _ (i : ℕ) (s : LoomGenerationState) (inside : i < s.n) where
  round_in-Ok :
      (phase : Phase) (l : LoomSubscriber)
      → l.phase ≡ phase
      → Ok s.n i (is_running s.status) (branch_text i s.branches) l
      → Ok s.n i (is_running s.status) (branch_text i s.branches) (round_in s phase l)
  unfolding round_in
  round_in-Ok live l e h = elim (leb-cases s.n i s.n l.replayed) [
    | inl (all, le) ↦ rw all (
        loop_round-Ok s.n i s (branch_text i s.branches) l.replayed l.yielded l.queue
          (omega (arith, inside, le)) (rw e at h))
    | inr more ↦
        let opened : OkIn s.n i (is_running s.status) (branch_text i s.branches) l.replayed
            l.yielded l.queue live =
          rw e at h in
        rw more
          (replay-Follow s.n i s.branches l.replayed l.yielded l.queue inside opened.0, opened.1)
  ]
  round_in-Ok ended l e h = h
  round_in-Ok closed l e h = h

  pub live_round-Ok :
      (l : LoomSubscriber)
      → Ok s.n i (is_running s.status) (branch_text i s.branches) l
      → Ok s.n i (is_running s.status) (branch_text i s.branches) (live_round s l)
  unfolding live_round
  live_round-Ok l h = round_in-Ok l.phase l refl h
