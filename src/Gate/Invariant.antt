-- ===== src/Gate/Invariant.antt =====
-- The slots and the queue of a gate in every state that its tasks can reach.
use acs_base_model_api.Base.{
  ℕ, suc, ◌+◌, ◌-◌, ◌≤◌, ◌≡◌, refl, true, false, Bool-cases, ◌⊎◌, inl, inr, [], ◌∷◌, ◌++◌, leb,
  nat_eq, arith,
}
use acs_base_model_api.Base.Lists.{length, length-append}
use acs_base_model_api.Gate.{
  pending, woken, cancelled, Waiters, Gate, any_live, locked, granted, suspended, refused, Acquired,
  acquire, System,
}
use acs_base_model_api.Gate.Waiters.{count_woken, count_pending}

-- Each slot is free, held or handed to a waiter; the counter counts the waiters, who fit in the
-- queue; and no waiter is forgotten: if one is pending, no slot is free, or a woken waiter is about
-- to go on.
pub record Wf (max_inflight max_queued : ℕ) (s : System) : Type 0 where
  pub conserved : s.gate.value + s.holders + count_woken s.gate.waiters ≡ max_inflight
  pub counted : s.gate.queued ≡ length s.gate.waiters
  pub bounded : length s.gate.waiters ≤ max_queued
  pub fixed : s.gate.max_queued ≡ max_queued
  pub awake :
      (count_pending s.gate.waiters ≡ 0) ⊎ ((s.gate.value ≡ 0) ⊎ (1 ≤ count_woken s.gate.waiters))

count_woken-append : (ws : Waiters) (t : ℕ) → count_woken (ws ++ (t, pending) ∷ []) ≡ count_woken ws
count_woken-append [] t = refl
count_woken-append ((u, pending) ∷ ws) t = count_woken-append ws t
count_woken-append ((u, woken) ∷ ws) t = omega (arith, count_woken-append ws t)
count_woken-append ((u, cancelled) ∷ ws) t = count_woken-append ws t

-- a queue without a live waiter holds no slot, and one with a live waiter has it woken or pending
any_live-Counts :
    (ws : Waiters)
    → ((any_live ws ≡ false) × (count_woken ws ≡ 0))
      ⊎ ((any_live ws ≡ true) × (1 ≤ count_woken ws + count_pending ws))
unfolding any_live
any_live-Counts [] = inl (refl, refl)
any_live-Counts ((u, pending) ∷ ws) = inr (refl, omega arith)
any_live-Counts ((u, woken) ∷ ws) = inr (refl, omega arith)
any_live-Counts ((u, cancelled) ∷ ws) = any_live-Counts ws

-- what `acquire` leads to
abbrev pub After : ℕ → ℕ → ℕ → Gate × Acquired → Type 0
After mi mq holders (g, granted) = Wf mi mq (record { gate = g; holders = suc holders })
After mi mq holders (g, suspended) = Wf mi mq (record { gate = g; holders = holders })
After mi mq holders (g, refused) = Wf mi mq (record { gate = g; holders = holders })

enqueue-Wf :
    (mi mq : ℕ) (t : ℕ) (s : System)
    → Wf mi mq s
    → suc s.gate.queued ≤ mq
    → (s.gate.value ≡ 0) ⊎ (1 ≤ count_woken s.gate.waiters)
    → Wf mi mq (record {
      gate = record {
        value = s.gate.value;
        waiters = s.gate.waiters ++ (t, pending) ∷ [];
        max_queued = s.gate.max_queued;
        queued = s.gate.queued + 1;
      };
      holders = s.holders;
    })
enqueue-Wf mi mq t s w room full =
    let same = count_woken-append s.gate.waiters t in
    let size = length-append s.gate.waiters ((t, pending) ∷ []) in
    record {
      conserved = omega (arith, w.conserved, same);
      counted = omega (arith, w.counted, size);
      bounded = omega (arith, w.counted, room, size);
      fixed = w.fixed;
      awake = inr (elim full [ inl free ↦ inl free | inr held ↦ inr (omega (arith, held, same)) ]);
    }

grant-Wf :
    (mi mq : ℕ) (s : System)
    → Wf mi mq s
    → 1 ≤ s.gate.value
    → count_woken s.gate.waiters ≡ 0
    → Wf mi mq (record {
      gate = record {
        value = s.gate.value - 1;
        waiters = s.gate.waiters;
        max_queued = s.gate.max_queued;
        queued = s.gate.queued;
      };
      holders = suc s.holders;
    })
grant-Wf mi mq s w free none_woken = record {
  conserved = omega (arith, w.conserved);
  counted = w.counted;
  bounded = w.bounded;
  fixed = w.fixed;
  awake = elim w.awake [
    | inl nobody ↦ inl nobody
    | inr (inl empty) ↦ absurd (omega arith)
    | inr (inr held) ↦ absurd (omega arith)
  ];
}

-- a locked semaphore has no free slot, or a woken waiter
locked-Full :
    (mi mq : ℕ) (s : System)
    → Wf mi mq s
    → locked s.gate ≡ true
    → (s.gate.value ≡ 0) ⊎ (1 ≤ count_woken s.gate.waiters)
unfolding locked
locked-Full mi mq s w h = elim (any_live-Counts s.gate.waiters) [
  | inl (dead, none_woken) ↦ inl (ground arith)
  | inr (live, some_wait) ↦ elim w.awake [ inr full ↦ full | inl nobody ↦ inr (omega arith) ]
]

unlocked-Free :
    (s : System) → locked s.gate ≡ false → (1 ≤ s.gate.value) × (count_woken s.gate.waiters ≡ 0)
unfolding locked
unlocked-Free s h = elim (any_live-Counts s.gate.waiters) [
  | inl (dead, none_woken) ↦ (ground arith, none_woken)
  | inr (live, some_wait) ↦ absurd (ground arith)
]

pub acquire-After :
    (mi mq : ℕ) (t : ℕ) (s : System) → Wf mi mq s → After mi mq s.holders (acquire t s.gate)
unfolding acquire
acquire-After mi mq t s w = elim (Bool-cases (locked s.gate)) [
  | inr unlocked ↦
      let (free, none_woken) = unlocked-Free s unlocked in
      rw unlocked (grant-Wf mi mq s w free none_woken)
  | inl shut ↦ elim (Bool-cases (leb s.gate.max_queued s.gate.queued)) [
    | inl full ↦ rw (shut, full) w
    | inr room ↦
        rw (shut, room)
          (enqueue-Wf mi mq t s w (ground (arith, w.fixed)) (locked-Full mi mq s w shut))
  ]
]
