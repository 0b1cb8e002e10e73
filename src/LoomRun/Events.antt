-- ===== src/LoomRun/Events.antt =====
-- What the subscribers of a loom's generation show of a branch, under the events of the upstream.
use acs_base_model_api.Base.{
  ℕ, suc, ◌-◌, ◌≡◌, refl, sym, Bool, true, false, Bool-cases, Option-cases, inl, inr, Option, none,
  some, List, [], ◌∷◌, ◌++◌, leb, nat_eq, ◌==◌, if◌then◌else◌,
}
use acs_base_model_api.Base.Lists.{All}
use acs_base_model_api.Base.Text.{Text, codes}
use acs_base_model_api.Base.Json.{ℤ, pos, negsuc}
use acs_base_model_api.Workbench.{internal}
use acs_base_model_api.Workbench.Task.{error_code, message_of, get_or}
use acs_base_model_api.Workbench.Live.{is_running}
use acs_base_model_api.Workbench.Replay.{All-mapped}
use acs_base_model_api.LoomRun.{
  LoomFrame, error_frame, status_frame, LoomGenerationState, put_nowait, broadcast,
}
use acs_base_model_api.LoomRun.Chunk.{IntLibrary, LoomAbsorbed, absorb_loom_chunk}
use acs_base_model_api.LoomRun.Task.{
  Event, status_event, chunk_event, error_event, stream_error, LoomTask, branch_text, deliver,
  deliver_slot, deliver_slots, on_exception, delivered, absorbed, on_chunk, on_error, on_event,
  next_event,
}
use acs_base_model_api.LoomRun.Live.{is_done}
use acs_base_model_api.LoomRun.Shown.{branch_index, Sets, grown-Sets}
use acs_base_model_api.LoomRun.Follow.{Ok, put_nowait-Ok}

module _ (n i : ℕ) where
  -- the size of a generation, and what its subscribers show while it runs or when it has ended
  pub record Good (r : Bool) (s : LoomGenerationState) : Type 0 where
    pub size : s.n ≡ n
    pub status : is_running s.status ≡ r
    pub readers : All (Ok n i r (branch_text i s.branches)) s.subscribers

  -- a frame that is no branch's
  plain-Good :
      (f : LoomFrame) (s : LoomGenerationState)
      → Sets n i f (branch_text i s.branches) (branch_text i s.branches)
      → is_done f ≡ false
      → Good true s
      → Good true (broadcast f s)
  unfolding broadcast
  plain-Good f s sets e g = record {
    size = g.size;
    status = g.status;
    readers =
        All-mapped _ _ (put_nowait f) s.subscribers (λ l. put_nowait-Ok n i f _ _ l sets e)
          g.readers;
  }

  deliver-Good :
      (j : ℕ) (idx : ℤ) (delta : Text) (s : LoomGenerationState)
      → branch_index n idx ≡ some j
      → Good true s
      → Good true (deliver j idx delta s)
  unfolding deliver broadcast
  deliver-Good j idx delta s e g = record {
    size = g.size;
    status = g.status;
    readers =
        All-mapped _ _ (put_nowait _) s.subscribers
          (λ l.
            put_nowait-Ok n i _ _ _ l (grown-Sets n i j idx (λ t. t ++ delta) s.branches e) refl)
          g.readers;
  }

  -- a slot leaves the subscribers right, if it does not raise
  abbrev GoodOption : Option LoomGenerationState → Type 0
  GoodOption none = Unit
  GoodOption (some s) = Good true s

  deliver_slot-Good :
      (idx : ℤ) (delta : Text) (s : LoomGenerationState)
      → Good true s
      → GoodOption (deliver_slot idx delta s)
  unfolding deliver_slot
  deliver_slot-Good (pos k) delta s g = elim (Bool-cases (leb s.n k)) [
    | inl out ↦ rw out g
    | inr inside ↦ rw inside (deliver-Good k (pos k) delta s (rw (sym g.size, inside) refl) g)
  ]
  deliver_slot-Good (negsuc k) delta s g = elim (Bool-cases (leb s.n k)) [
    | inl out ↦ rw out tt
    | inr inside ↦
        rw inside (deliver-Good (s.n - suc k) (negsuc k) delta s (rw (sym g.size, inside) refl) g)
  ]

  deliver_slots-Good :
      (slots : List (ℤ × Text)) (s : LoomGenerationState)
      → Good true s
      → Good true (deliver_slots slots s).0
  unfolding deliver_slots
  deliver_slots-Good [] s g = g
  deliver_slots-Good ((idx, delta) ∷ slots) s g = elim (Option-cases (deliver_slot idx delta s)) [
    | inl e ↦ rw (deliver_slots, e) g
    | inr (u, e) ↦
        rw (deliver_slots, e)
          (deliver_slots-Good slots u (rw e at (deliver_slot-Good idx delta s g)))
  ]

  on_exception-Good : (t : LoomTask) → Good true t.state → Good true (on_exception t).state
  unfolding on_exception
  on_exception-Good t g =
      plain-Good (error_frame 500 (codes "internal_error") internal) t.state (inl (λ u. refl, refl))
        refl g

  delivered-Good :
      (d : LoomGenerationState × Bool) (t : LoomTask)
      → Good true d.0
      → Good true (delivered d t).state
  unfolding delivered
  delivered-Good (s, false) t g = g
  delivered-Good (s, true) t g = on_exception-Good (record t { state = s }) g

  absorbed-Good :
      (o : Option LoomAbsorbed) (t : LoomTask) → Good true t.state → Good true (absorbed o t).state
  unfolding absorbed
  absorbed-Good none t g = on_exception-Good t g
  absorbed-Good (some (slots, done)) t g =
      delivered-Good (deliver_slots slots t.state) _ (deliver_slots-Good slots t.state g)

  on_event-Good :
      (lib : IntLibrary) (e : Event) (t : LoomTask)
      → Good true t.state
      → Good true (on_event lib e t).state
  unfolding on_event on_chunk on_error
  on_event-Good lib (status_event info) t g =
      plain-Good (status_frame info) (record t.state { last_status = some info })
        (inl (λ u. refl, refl)) refl
        (record { size = g.size; status = g.status; readers = g.readers })
  on_event-Good lib (chunk_event bytes usage code) t g =
      absorbed-Good (absorb_loom_chunk lib bytes) _
        (record { size = g.size; status = g.status; readers = g.readers })
  on_event-Good lib (error_event bytes code kind) t g =
      let status = get_or 500 code in
      plain-Good
        (error_frame (if status == 0 then 502 else status) (error_code status kind)
          (message_of lib.json status (lib.json.loads bytes)))
        t.state (inl (λ u. refl, refl)) refl g
  on_event-Good lib stream_error t g = on_exception-Good t g

  pub next_event-Good :
      (lib : IntLibrary) (e : Event) (t : LoomTask)
      → Good true t.state
      → Good true (next_event lib e t).state
  unfolding next_event
  next_event-Good lib e t g = elim (Bool-cases t.state.cancel_requested) [
    | inl stops ↦ simp stops g
    | inr goes ↦ simp goes (on_event-Good lib e t g)
  ]
