-- ===== src/Gate/Waiters.antt =====
-- How the semaphore's operations change its waiters: their number, and those that hold a slot.
use acs_base_model_api.Base.{
  ℕ, zero, suc, ◌+◌, ◌≤◌, ◌≡◌, refl, ap, Bool-cases, ◌⊎◌, inl, inr, Option, none, some, [], ◌∷◌,
  nat_eq, ◌==◌, arith,
}
use acs_base_model_api.Base.Lists.{length}
use acs_base_model_api.Gate.{
  Future, pending, woken, cancelled, Waiters, wake_first, wake_all, take_waiter, cancel_pending,
}

-- the futures that have been handed a slot
abbrev pub count_woken : Waiters → ℕ
count_woken [] = 0
count_woken ((t, woken) ∷ ws) = suc (count_woken ws)
count_woken ((t, pending) ∷ ws) = count_woken ws
count_woken ((t, cancelled) ∷ ws) = count_woken ws

abbrev pub count_pending : Waiters → ℕ
count_pending [] = 0
count_pending ((t, pending) ∷ ws) = suc (count_pending ws)
count_pending ((t, woken) ∷ ws) = count_pending ws
count_pending ((t, cancelled) ∷ ws) = count_pending ws

-- what waking one does
abbrev pub Woke : Waiters → Option Waiters → Type 0
Woke ws none = count_pending ws ≡ 0
Woke ws (some us) =
    (count_woken us ≡ suc (count_woken ws))
    × ((count_pending ws ≡ suc (count_pending us)) × (length us ≡ length ws))

-- a waiter that is not pending stays as it is
skip_woken-Woke :
    (t : ℕ) (ws : Waiters) (found : Option Waiters)
    → Woke ws found
    → Woke ((t, woken) ∷ ws) (elim found [ none ↦ none | some us ↦ some ((t, woken) ∷ us) ])
skip_woken-Woke t ws none h = h
skip_woken-Woke t ws (some us) h = (ap suc h.0, (h.1.0, ap suc h.1.1))

skip_cancelled-Woke :
    (t : ℕ) (ws : Waiters) (found : Option Waiters)
    → Woke ws found
    → Woke ((t, cancelled) ∷ ws) (elim found [ none ↦ none | some us ↦ some ((t, cancelled) ∷ us) ])
skip_cancelled-Woke t ws none h = h
skip_cancelled-Woke t ws (some us) h = (h.0, (h.1.0, ap suc h.1.1))

pub wake_first-Woke : (ws : Waiters) → Woke ws (wake_first ws)
unfolding wake_first
wake_first-Woke [] = refl
wake_first-Woke ((t, pending) ∷ ws) = (refl, (refl, refl))
wake_first-Woke ((t, woken) ∷ ws) = skip_woken-Woke t ws (wake_first ws) (wake_first-Woke ws)
wake_first-Woke ((t, cancelled) ∷ ws) =
    skip_cancelled-Woke t ws (wake_first ws) (wake_first-Woke ws)

-- the free slots go to pending waiters, until one of the two is used up
abbrev pub Settled : ℕ → Waiters → ℕ × Waiters → Type 0
Settled value ws (left, us) =
    (left + count_woken us ≡ value + count_woken ws)
    × ((length us ≡ length ws) × ((left ≡ 0) ⊎ (count_pending us ≡ 0)))

wake_all-step :
    (value : ℕ) (ws : Waiters) (found : Option Waiters)
    → Woke ws found
    → ((us : Waiters) → Settled value us (wake_all value us))
    → Settled (suc value) ws (elim found [ none ↦ (suc value, ws) | some us ↦ wake_all value us ])
wake_all-step value ws none h rest = (refl, (refl, inr h))
wake_all-step value ws (some us) h rest =
    let (sum, (size, ends)) = rest us in
    (omega (arith, sum, h.0), (omega (arith, size, h.1.1), ends))

pub wake_all-Settled : (value : ℕ) (ws : Waiters) → Settled value ws (wake_all value ws)
unfolding wake_all
wake_all-Settled zero ws = (refl, (refl, inl refl))
wake_all-Settled (suc value) ws =
    wake_all-step value ws (wake_first ws) (wake_first-Woke ws) (wake_all-Settled value)

-- the slots that a future holds
abbrev pub slots : Future → ℕ
slots woken = 1
slots pending = 0
slots cancelled = 0

-- the entry that is taken out
abbrev pub Took : Waiters → Option (Future × Waiters) → Type 0
Took ws none = Unit
Took ws (some (f, us)) = (length ws ≡ suc (length us)) × (count_woken ws ≡ slots f + count_woken us)

count_woken-cons :
    (u : ℕ) (f : Future) (ws : Waiters) → count_woken ((u, f) ∷ ws) ≡ slots f + count_woken ws
count_woken-cons u pending ws = omega arith
count_woken-cons u woken ws = omega arith
count_woken-cons u cancelled ws = omega arith

take_waiter-step :
    (u : ℕ) (f : Future) (ws : Waiters) (found : Option (Future × Waiters))
    → Took ws found
    → Took ((u, f) ∷ ws) (elim found [ none ↦ none | some (h, us) ↦ some (h, (u, f) ∷ us) ])
take_waiter-step u f ws none h = tt
take_waiter-step u f ws (some (g, us)) h =
    (ap suc h.0, omega (arith, h.1, count_woken-cons u f ws, count_woken-cons u f us))

pub take_waiter-Took : (t : ℕ) (ws : Waiters) → Took ws (take_waiter t ws)
unfolding take_waiter
take_waiter-Took t [] = tt
take_waiter-Took t ((u, f) ∷ ws) = elim (Bool-cases (u == t)) [
  | inl here ↦ rw here (refl, count_woken-cons u f ws)
  | inr later ↦ rw later (take_waiter-step u f ws (take_waiter t ws) (take_waiter-Took t ws))
]

-- no slot moves when a waiter is cancelled
abbrev pub Cancelled : Waiters → Waiters → Type 0
Cancelled ws us =
    (length us ≡ length ws)
    × ((count_woken us ≡ count_woken ws) × (count_pending us ≤ count_pending ws))

pub cancel_pending-Cancelled : (t : ℕ) (ws : Waiters) → Cancelled ws (cancel_pending t ws)
unfolding cancel_pending
cancel_pending-Cancelled t [] = (refl, (refl, omega arith))
cancel_pending-Cancelled t ((u, pending) ∷ ws) =
    let (size, (held, less)) = cancel_pending-Cancelled t ws in
    elim (Bool-cases (u == t)) [
      | inl here ↦ rw here (refl, (refl, omega arith))
      | inr later ↦ rw later (ap suc size, (held, omega (arith, less)))
    ]
cancel_pending-Cancelled t ((u, woken) ∷ ws) =
    let (size, (held, less)) = cancel_pending-Cancelled t ws in (ap suc size, (ap suc held, less))
cancel_pending-Cancelled t ((u, cancelled) ∷ ws) =
    let (size, (held, less)) = cancel_pending-Cancelled t ws in (ap suc size, (held, less))
