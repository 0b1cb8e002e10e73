-- ===== src/Gate.antt =====
-- `KeyConcurrencyGate` of base_model_wrapper/src/wrapper/routes/api.py: the active slots of a key
-- and the bounded queue before them. The `asyncio.Semaphore` inside is modelled as Python 3.12 has
-- it. A task is a number; one operation runs between two awaits.
pub mod Bounds
pub mod Invariant
pub mod Registry
pub mod Tests
pub mod Waiters
use acs_base_model_api.Base.{
  ℕ, zero, suc, ◌+◌, ◌-◌, Bool, true, false, not, ◌||◌, Option, none, some, List, [], ◌∷◌, ◌++◌,
  leb, nat_eq, ◌==◌, ◌≡◌, if◌then◌else◌,
}

abbrev pub max_inflight_per_key : ℕ
max_inflight_per_key = 16

abbrev pub max_queued_per_key : ℕ
max_queued_per_key = 64

-- the future that a waiting task awaits
pub data Future : Type 0 where
  pending : Future
  woken : Future
  cancelled : Future

abbrev pub Waiters : Type 0
Waiters = List (ℕ × Future)

-- `value` and `waiters` are the semaphore's
pub record Gate : Type 0 where
  pub value : ℕ
  pub waiters : Waiters
  pub max_queued : ℕ
  pub queued : ℕ

unfoldable pub new_gate : (max_inflight max_queued : ℕ) → Gate
new_gate max_inflight max_queued = record {
  value = max_inflight;
  waiters = [];
  max_queued = max_queued;
  queued = 0;
}

unfoldable pub any_live : Waiters → Bool
any_live [] = false
any_live ((t, cancelled) ∷ ws) = any_live ws
any_live ((t, pending) ∷ ws) = true
any_live ((t, woken) ∷ ws) = true

-- `Semaphore.locked`
unfoldable pub locked : Gate → Bool
unfolding any_live
locked g = g.value == 0 || any_live g.waiters

-- the search of `Semaphore._wake_up_next`: the first pending future gets its result
unfoldable pub wake_first : Waiters → Option Waiters
wake_first [] = none
wake_first ((t, pending) ∷ ws) = some ((t, woken) ∷ ws)
wake_first ((t, woken) ∷ ws) = elim (wake_first ws) [
  | none ↦ none
  | some us ↦ some ((t, woken) ∷ us)
]
wake_first ((t, cancelled) ∷ ws) = elim (wake_first ws) [
  | none ↦ none
  | some us ↦ some ((t, cancelled) ∷ us)
]

-- `while self._value > 0` at the end of `Semaphore.acquire`
unfoldable pub wake_all : ℕ → Waiters → ℕ × Waiters
unfolding wake_first
wake_all zero ws = (0, ws)
wake_all (suc value) ws = elim (wake_first ws) [
  | none ↦ (suc value, ws)
  | some us ↦ wake_all value us
]

-- what `acquire` comes to before it suspends
pub data Acquired : Type 0 where
  granted : Acquired
  suspended : Acquired
  refused : Acquired

unfoldable pub acquire : ℕ → Gate → Gate × Acquired
unfolding locked
acquire t g =
    if not (locked g)
    then (
      record {
        value = g.value - 1;
        waiters = g.waiters;
        max_queued = g.max_queued;
        queued = g.queued;
      },
      granted,
    )
    else if leb g.max_queued g.queued
    then (g, refused)
    else (
      record {
        value = g.value;
        waiters = g.waiters ++ (t, pending) ∷ [];
        max_queued = g.max_queued;
        queued = g.queued + 1;
      },
      suspended,
    )

-- `release`, after the search of `_wake_up_next`: the slot is free, or handed to the found waiter
unfoldable pub released : Gate → Option Waiters → Gate
released g none = record {
  value = g.value + 1;
  waiters = g.waiters;
  max_queued = g.max_queued;
  queued = g.queued;
}
released g (some us) = record {
  value = g.value;
  waiters = us;
  max_queued = g.max_queued;
  queued = g.queued;
}

unfoldable pub release : Gate → Gate
unfolding released wake_first
release g = released g (wake_first g.waiters)

-- the future of the task's first entry, and the entries without it
unfoldable pub take_waiter : ℕ → Waiters → Option (Future × Waiters)
take_waiter t [] = none
take_waiter t ((u, f) ∷ ws) =
    if u == t
    then some (f, ws)
    else elim (take_waiter t ws) [ none ↦ none | some (h, us) ↦ some (h, (u, f) ∷ us) ]

-- A waiter of `acquire` goes on, `gained` slots being its own to give back: it leaves the queue.
unfoldable pub leave : Gate → (gained : ℕ) → Waiters → Gate
unfolding wake_all
leave g gained ws =
    let next = wake_all (g.value + gained) ws in
    record { value = next.0; waiters = next.1; max_queued = g.max_queued; queued = g.queued - 1 }

-- `task.cancel()` while the future is pending
unfoldable pub cancel_pending : ℕ → Waiters → Waiters
cancel_pending t [] = []
cancel_pending t ((u, pending) ∷ ws) =
    if u == t then (u, cancelled) ∷ ws else (u, pending) ∷ cancel_pending t ws
cancel_pending t ((u, woken) ∷ ws) = (u, woken) ∷ cancel_pending t ws
cancel_pending t ((u, cancelled) ∷ ws) = (u, cancelled) ∷ cancel_pending t ws

-- the gate of a key and the number of tasks that hold a slot of it
pub record System : Type 0 where
  pub gate : Gate
  pub holders : ℕ

-- One step of one task, from one await to the next. A woken waiter goes on with its slot, or gives
-- it back when it is cancelled; a cancelled one leaves.
pub data Step (s : System) : System → Type 0 where
  grant :
      (t : ℕ) (g : Gate)
      → acquire t s.gate ≡ (g, granted)
      → Step s (record { gate = g; holders = suc s.holders })
  queue :
      (t : ℕ) (g : Gate)
      → acquire t s.gate ≡ (g, suspended)
      → Step s (record { gate = g; holders = s.holders })
  refuse :
      (t : ℕ) (g : Gate)
      → acquire t s.gate ≡ (g, refused)
      → Step s (record { gate = g; holders = s.holders })
  resume :
      (t : ℕ) (ws : Waiters)
      → take_waiter t s.gate.waiters ≡ some (woken, ws)
      → Step s (record { gate = leave s.gate 0 ws; holders = suc s.holders })
  give_back :
      (t : ℕ) (ws : Waiters)
      → take_waiter t s.gate.waiters ≡ some (woken, ws)
      → Step s (record { gate = leave s.gate 1 ws; holders = s.holders })
  drop_out :
      (t : ℕ) (ws : Waiters)
      → take_waiter t s.gate.waiters ≡ some (cancelled, ws)
      → Step s (record { gate = leave s.gate 0 ws; holders = s.holders })
  cancel :
      (t : ℕ)
      → Step s (record {
        gate = record {
          value = s.gate.value;
          waiters = cancel_pending t s.gate.waiters;
          max_queued = s.gate.max_queued;
          queued = s.gate.queued;
        };
        holders = s.holders;
      })
  finish : (h : ℕ) → s.holders ≡ suc h → Step s (record { gate = release s.gate; holders = h })

pub data Reach (max_inflight max_queued : ℕ) : System → Type 0 where
  fresh :
      Reach max_inflight max_queued
        (record { gate = new_gate max_inflight max_queued; holders = 0 })
  then_step :
      {s u : System} → Reach max_inflight max_queued s → Step s u → Reach max_inflight max_queued u
