-- ===== src/Gate/Tests.antt =====
-- A gate of two slots with a queue of one.
use acs_base_model_api.Base.{◌+◌, ◌≤◌, ◌≡◌, refl, ◌⊎◌, [], ◌∷◌}
use acs_base_model_api.Base.Lists.{length}
use acs_base_model_api.Gate.{
  woken, new_gate, acquire, refused, release, System, grant, queue, finish, Reach, fresh, then_step,
  locked, any_live, wake_first, released,
}
use acs_base_model_api.Gate.Waiters.{count_woken, count_pending}
use acs_base_model_api.Gate.Bounds.{gate-Bounded}

abbrev one_slot : System
one_slot = record {
  gate = record { value = 0; waiters = (7, woken) ∷ []; max_queued = 1; queued = 1 };
  holders = 0;
}

-- task 3 runs, task 7 waits, and gets the slot that task 3 gives back
one_slot-Reach : Reach 1 1 one_slot
unfolding new_gate acquire release locked any_live wake_first released
one_slot-Reach =
    then_step (then_step (then_step fresh (grant 3 _ refl)) (queue 7 _ refl)) (finish 0 refl)

late_refused : (acquire 9 one_slot.gate).1 ≡ refused
unfolding acquire locked
late_refused = refl

gate-Bounded_example :
    (one_slot.holders + count_woken one_slot.gate.waiters ≤ 1)
    × (((one_slot.gate.queued ≡ length one_slot.gate.waiters) × (one_slot.gate.queued ≤ 1))
        × ((count_pending one_slot.gate.waiters ≡ 0)
            ⊎ ((one_slot.holders + count_woken one_slot.gate.waiters ≡ 1)
                ⊎ (1 ≤ count_woken one_slot.gate.waiters))))
gate-Bounded_example = gate-Bounded 1 1 one_slot one_slot-Reach
