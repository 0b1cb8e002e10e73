-- ===== src/Gate/Bounds.antt =====
-- The cap on a key's active slots and on its waiters.
use acs_base_model_api.Base.{ℕ, suc, ◌+◌, ◌≤◌, ◌≡◌, refl, ◌⊎◌, inl, inr, Option, none, some, arith}
use acs_base_model_api.Base.Lists.{length}
use acs_base_model_api.Gate.{
  Future, woken, cancelled, Waiters, Gate, wake_first, Acquired, granted, suspended, refused,
  released, release, take_waiter, leave, cancel_pending, System, Step, grant, queue, refuse, resume,
  give_back, drop_out, cancel, finish, Reach, fresh, then_step, new_gate,
}
use acs_base_model_api.Gate.Waiters.{
  count_woken, count_pending, Woke, wake_first-Woke, wake_all-Settled, slots, Took,
  take_waiter-Took, cancel_pending-Cancelled,
}
use acs_base_model_api.Gate.Invariant.{Wf, After, acquire-After}

acquired_as :
    (mi mq holders : ℕ) (out : Gate × Acquired) (g : Gate) (v : Acquired)
    → out ≡ (g, v)
    → After mi mq holders out
    → After mi mq holders (g, v)
acquired_as mi mq holders out g v e h = rw e at h

taken_entry :
    (t : ℕ) (ws us : Waiters) (f : Future)
    → take_waiter t ws ≡ some (f, us)
    → Took ws (some (f, us))
taken_entry t ws us f e = rw e at (take_waiter-Took t ws)

-- A waiter leaves and gives back `gained` slots, and `h` is what is held then.
leave-Wf :
    (mi mq : ℕ) (s : System) (f : Future) (ws : Waiters) (gained h : ℕ)
    → Wf mi mq s
    → Took s.gate.waiters (some (f, ws))
    → gained + h ≡ slots f + s.holders
    → Wf mi mq (record { gate = leave s.gate gained ws; holders = h })
unfolding leave
leave-Wf mi mq s f ws gained h w (size, held) share =
    let (sum, (same, ends)) = wake_all-Settled (s.gate.value + gained) ws in
    record {
      conserved = omega (arith, w.conserved, sum, held, share);
      counted = omega (arith, w.counted, size, same);
      bounded = omega (arith, w.bounded, size, same);
      fixed = w.fixed;
      awake = elim ends [ inl spent ↦ inr (inl spent) | inr nobody ↦ inl nobody ];
    }

released-Wf :
    (mi mq h : ℕ) (s : System) (found : Option Waiters)
    → s.holders ≡ suc h
    → Wf mi mq s
    → Woke s.gate.waiters found
    → Wf mi mq (record { gate = released s.gate found; holders = h })
unfolding released
released-Wf mi mq h s none e w nobody = record {
  conserved = omega (arith, w.conserved, e);
  counted = w.counted;
  bounded = w.bounded;
  fixed = w.fixed;
  awake = inl nobody;
}
released-Wf mi mq h s (some us) e w (held, (less, size)) = record {
  conserved = omega (arith, w.conserved, e, held);
  counted = omega (arith, w.counted, size);
  bounded = omega (arith, w.bounded, size);
  fixed = w.fixed;
  awake = inr (inr (omega (arith, held)));
}

release-Wf :
    (mi mq h : ℕ) (s : System)
    → s.holders ≡ suc h
    → Wf mi mq s
    → Wf mi mq (record { gate = release s.gate; holders = h })
unfolding release
release-Wf mi mq h s e w =
    released-Wf mi mq h s (wake_first s.gate.waiters) e w (wake_first-Woke s.gate.waiters)

cancel-Wf :
    (mi mq t : ℕ) (s : System)
    → Wf mi mq s
    → Wf mi mq (record {
      gate = record {
        value = s.gate.value;
        waiters = cancel_pending t s.gate.waiters;
        max_queued = s.gate.max_queued;
        queued = s.gate.queued;
      };
      holders = s.holders;
    })
cancel-Wf mi mq t s w =
    let (size, (held, less)) = cancel_pending-Cancelled t s.gate.waiters in
    record {
      conserved = omega (arith, w.conserved, held);
      counted = omega (arith, w.counted, size);
      bounded = omega (arith, w.bounded, size);
      fixed = w.fixed;
      awake = elim w.awake [
        | inl nobody ↦ inl (omega (arith, nobody, less))
        | inr (inl empty) ↦ inr (inl empty)
        | inr (inr some_woken) ↦ inr (inr (omega (arith, some_woken, held)))
      ];
    }

step-Wf : (mi mq : ℕ) {s u : System} → Step s u → Wf mi mq s → Wf mi mq u
step-Wf mi mq {s} (grant t g e) w =
    acquired_as mi mq s.holders _ g granted e (acquire-After mi mq t s w)
step-Wf mi mq {s} (queue t g e) w =
    acquired_as mi mq s.holders _ g suspended e (acquire-After mi mq t s w)
step-Wf mi mq {s} (refuse t g e) w =
    acquired_as mi mq s.holders _ g refused e (acquire-After mi mq t s w)
step-Wf mi mq {s} (resume t ws e) w =
    leave-Wf mi mq s woken ws 0 (suc s.holders) w (taken_entry t _ ws woken e) (omega arith)
step-Wf mi mq {s} (give_back t ws e) w =
    leave-Wf mi mq s woken ws 1 s.holders w (taken_entry t _ ws woken e) (omega arith)
step-Wf mi mq {s} (drop_out t ws e) w =
    leave-Wf mi mq s cancelled ws 0 s.holders w (taken_entry t _ ws cancelled e) (omega arith)
step-Wf mi mq {s} (cancel t) w = cancel-Wf mi mq t s w
step-Wf mi mq {s} (finish h e) w = release-Wf mi mq h s e w

fresh-Wf : (mi mq : ℕ) → Wf mi mq (record { gate = new_gate mi mq; holders = 0 })
unfolding new_gate
fresh-Wf mi mq = record {
  conserved = omega arith;
  counted = refl;
  bounded = omega arith;
  fixed = refl;
  awake = inl refl;
}

reach-Wf : (mi mq : ℕ) {s : System} → Reach mi mq s → Wf mi mq s
reach-Wf mi mq fresh = fresh-Wf mi mq
reach-Wf mi mq (then_step r step) = step-Wf mi mq step (reach-Wf mi mq r)

-- In every state of a key's gate that its tasks can reach, the requests that run and the waiters
-- that have been handed a slot are at most `mi`, the waiters are as many as `queued` counts and at
-- most `mq`, and no slot stays free beside a waiter that nobody wakes: if a waiter is pending, all
-- `mi` slots are held, or a woken waiter is about to go on.
pub gate-Bounded :
    (mi mq : ℕ) (s : System)
    → Reach mi mq s
    → (s.holders + count_woken s.gate.waiters ≤ mi)
      × (((s.gate.queued ≡ length s.gate.waiters) × (s.gate.queued ≤ mq))
          × ((count_pending s.gate.waiters ≡ 0)
              ⊎ ((s.holders + count_woken s.gate.waiters ≡ mi) ⊎ (1 ≤ count_woken s.gate.waiters))))
gate-Bounded mi mq s r =
    let w = reach-Wf mi mq r in
    (
      omega (arith, w.conserved),
      (
        (w.counted, omega (arith, w.counted, w.bounded)),
        elim w.awake [
          | inl nobody ↦ inl nobody
          | inr (inl empty) ↦ inr (inl (omega (arith, w.conserved)))
          | inr (inr held) ↦ inr (inr held)
        ],
      ),
    )
