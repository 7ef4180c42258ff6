-- ===== src/TelemetryManager/Threads/Tests.antt =====
-- src/TelemetryManager/telemetry_manager.cpp: two threads in `queueMessage` and `flushQueue`.
use connected_vehicle_platfo.Prelude.{
  ℕ, ◌+◌, ◌≡◌, ◌⊎◌, refl, true, false, some, [], ◌∷◌, Text, codes, arith, update, sum_over, length,
  ℕ_discrete, ◌≤◌, ◌<◌,
}
use connected_vehicle_platfo.MqttClient.Fake.{Broker, fake_client, fake_platform, fake_doubles}
use connected_vehicle_platfo.TelemetryManager.Threads.{
  Place, outside, queueing, pushing, flushing, testing, looping, popped, pops, leaving, has_lock,
  Shared, new_shared, IsFree, queues_message, locks_to_push, pushes, unlocks, flushes,
  locks_to_flush, goes_on, Runs, PlaceStep, at_start, one_steps,
}
use connected_vehicle_platfo.TelemetryManager.Threads.Account.{amount, in_hand}
use connected_vehicle_platfo.TelemetryManager.Threads.Order.{
  IsInOrder, IsSameQueue, nothing_vanishes, lock_guards_queue,
}
use connected_vehicle_platfo.TelemetryManager.Threads.Onward.{is_outside, CanGoOn}
use connected_vehicle_platfo.TelemetryManager.Threads.Return.{
  steps_left, Continues, at_once, one_goes_on, calls_return,
}
use connected_vehicle_platfo.TelemetryManager.Threads.Alone.{
  flushes_queue, perform, with_queue, call-Runs,
}
use connected_vehicle_platfo.TelemetryManager.Threads.Walk.{CallRun}

abbrev online : Broker
online = record { up = true; sent = [] }

abbrev message : Text
message = codes "first"

abbrev other_message : Text
other_message = codes "second"

abbrev AnyChange : Broker → Broker → Type 0
AnyChange w w' = Unit {0}

-- Both threads are outside.
abbrev all_out : ℕ → Place
all_out j = outside

abbrev queued : Shared Broker
queued = record (new_shared online) {
  made = message ∷ [];
  entered = message ∷ [];
  pending_messages = message ∷ [];
}

-- Thread 0 has queued a message.
abbrev after_queue : ℕ → Place
after_queue =
    update (update (update (update all_out 0 (queueing message)) 0 (pushing message)) 0 leaving) 0
      outside

queue_run : Runs (some fake_client) AnyChange 2 (new_shared online) all_out queued after_queue
unfolding ℕ_discrete
queue_run =
    one_steps 0
      (one_steps 0
        (one_steps 0 (one_steps 0 at_start (omega arith) (queues_message message)) (omega arith)
          (locks_to_push (λ j below. ground arith)))
        (omega arith) pushes)
      (omega arith) unlocks

-- Then thread 1 is in the loop of `flushQueue`, and thread 0 has another message.
abbrev at_flush : ℕ → Place
at_flush = update (update (update after_queue 1 flushing) 1 testing) 1 looping

abbrev two_at_work : ℕ → Place
two_at_work = update at_flush 0 (queueing other_message)

abbrev made_both : Shared Broker
made_both = record queued { made = other_message ∷ message ∷ [] }

flush_run : Runs (some fake_client) AnyChange 2 (new_shared online) all_out queued at_flush
unfolding ℕ_discrete
flush_run =
    one_steps 1
      (one_steps 1 (one_steps 1 queue_run (omega arith) flushes) (omega arith)
        (locks_to_flush (λ j below. ground arith)))
      (omega arith) (goes_on refl)

work_run : Runs (some fake_client) AnyChange 2 (new_shared online) all_out made_both two_at_work
unfolding ℕ_discrete
work_run = one_steps 0 flush_run (omega arith) (queues_message other_message)

nothing_vanishes_example :
    (amount length made_both.made
      ≡ amount length made_both.accepted
        + amount length made_both.lost
        + amount length made_both.pending_messages
        + sum_over (in_hand length) 2 two_at_work)
    × IsInOrder made_both
nothing_vanishes_example = nothing_vanishes length work_run

lock_guards_queue_example :
    (◌≡◌ {A = ℕ} 1 0) ⊎ (IsSameQueue queued made_both × (has_lock (queueing other_message) ≡ false))
unfolding ℕ_discrete
lock_guards_queue_example =
    lock_guards_queue 1 0 flush_run (omega arith) (omega arith) refl (queues_message other_message)

call-Runs_example :
    let (m, w) =
      (perform fake_platform fake_doubles
        (some fake_client)
        flushes_queue
        (with_queue message queued, online)).1 in
    PlaceStep (some fake_client) (IsFree 2 all_out) queued outside queued flushing
    × ((s' : Shared Broker) × (g : ℕ → Place) × CallRun
          (some fake_client)
          2
          0
          queued
          (update all_out 0 flushing)
          s'
          g
        × (s'.pending_messages ≡ m.pending_messages)
        × (s'.world ≡ w)
        × ((j : ℕ) → g j ≡ all_out j))
call-Runs_example =
    call-Runs fake_platform fake_doubles (some fake_client) 2 flushes_queue message queued all_out 0
      refl (λ j below. refl)

-- Thread 1 goes on and takes the message from the queue.
abbrev taken : Shared Broker
taken = record made_both { pending_messages = []; left = message ∷ [] }

abbrev one_taken : ℕ → Place
one_taken = update two_at_work 1 (popped message)

takes_message : Continues (some fake_client) AnyChange 2 made_both two_at_work 1 taken one_taken
unfolding ℕ_discrete
takes_message = one_goes_on 1 at_once (omega arith) refl (pops refl)

calls_return_example :
    (1 + steps_left 2 taken one_taken ≤ steps_left 2 made_both two_at_work)
    × (((j : ℕ) → j < 2 → is_outside (one_taken j) ≡ true)
        ⊎ CanGoOn (some fake_client) 2 taken one_taken)
calls_return_example = calls_return (some fake_client) AnyChange work_run takes_message
