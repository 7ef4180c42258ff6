-- ===== src/TelemetryManager/Threads/Return.antt =====
-- src/TelemetryManager/telemetry_manager.cpp: the calls of any number of threads come to their ends.
use connected_vehicle_platfo.Prelude.{
  ℕ, suc, ◌+◌, ◌*◌, ◌≤◌, ◌<◌, ◌≡◌, ◌⊎◌, ap, true, false, Option, [], ◌∷◌, length, length-append,
  arith, update, sum_over, sum_over-update, update-all,
}
use connected_vehicle_platfo.MqttClient.Interface.{IMqttClient}
use connected_vehicle_platfo.TelemetryManager.Threads.Onward.{
  is_outside, IsBacked, step-IsBacked, Runs-IsBacked, CanGoOn, return_or-GoesOn,
}
use connected_vehicle_platfo.TelemetryManager.Threads.{
  Place, outside, asking, sending, queueing, pushing, flushing, testing, looping, popped, counting,
  leaving, Shared, new_shared, IsFree, PlaceStep, makes_sample, queues_message, finds_online,
  finds_offline, is_accepted, is_refused, locks_to_push, pushes, flushes, locks_to_flush, gives_up,
  goes_on, finds_empty, pops, drains, loses, counts, locks_to_count, unlocks, Runs,
}

-- The steps that a thread at the place has at most, with two for each message in the queue.
abbrev pub rank : Place → ℕ
rank outside = 0
rank (asking p) = 7
rank (sending p) = 6
rank (queueing p) = 5
rank (pushing p) = 4
rank flushing = 4
rank testing = 3
rank looping = 2
rank (popped p) = 3
rank counting = 2
rank leaving = 1

abbrev pub steps_left : {W : Type 0} → ℕ → Shared W → (ℕ → Place) → ℕ
steps_left n s f = 2 * length s.pending_messages + sum_over rank n f

module _ {W : Type 0} {c : Option (IMqttClient W)} {Free : Type 0} {s : Shared W} where
  step-rank :
      {s' : Shared W} {p p' : Place}
      → PlaceStep c Free s p s' p'
      → is_outside p ≡ false
      → 2 * length s'.pending_messages + rank p' < 2 * length s.pending_messages + rank p
  step-rank (makes_sample p) h = absurd (ground arith)
  step-rank (queues_message p) h = absurd (ground arith)
  step-rank (finds_online e) h = omega arith
  step-rank (finds_offline e) h = omega arith
  step-rank (is_accepted e) h = omega arith
  step-rank (is_refused e) h = omega arith
  step-rank (locks_to_push free) h = omega arith
  step-rank (pushes {p = p}) h =
      let at_back = length-append s.pending_messages (p ∷ []) in omega arith
  step-rank flushes h = absurd (ground arith)
  step-rank (locks_to_flush free) h = omega arith
  step-rank (gives_up e) h = omega arith
  step-rank (goes_on e) h = omega arith
  step-rank (finds_empty e) h = omega arith
  step-rank (pops e) h = let at_front = ap length e in ground arith
  step-rank (drains e) h = omega arith
  step-rank (loses e) h = omega arith
  step-rank counts h = absurd (ground arith)
  step-rank (locks_to_count free) h = omega arith
  step-rank unlocks h = omega arith

-- What follows from a state in `k` steps without a new call.
module _ {W : Type 0} (c : Option (IMqttClient W)) (Changes : W → W → Type 0) where
  pub data Continues (n : ℕ) (s : Shared W) (f : ℕ → Place)
      : ℕ → Shared W → (ℕ → Place) → Type 0 where
    at_once : Continues n s f 0 s f
    one_goes_on :
        {k : ℕ} {s' s'' : Shared W} {f' : ℕ → Place} {place : Place} (i : ℕ)
        → Continues n s f k s' f'
        → i < n
        → is_outside (f' i) ≡ false
        → PlaceStep c (IsFree n f') s' (f' i) s'' place
        → Continues n s f (suc k) s'' (update f' i place)
    changes_beside :
        {k : ℕ} {s' : Shared W} {f' : ℕ → Place} (w : W)
        → Continues n s f k s' f'
        → Changes s'.world w
        → Continues n s f k (record s' { world = w }) f'

  Continues-steps_left :
      {n : ℕ} {s : Shared W} {f : ℕ → Place} {k : ℕ} {s' : Shared W} {f' : ℕ → Place}
      → Continues n s f k s' f'
      → k + steps_left n s' f' ≤ steps_left n s f
  Continues-steps_left at_once = omega arith
  Continues-steps_left {n = n} (one_goes_on {f' = f} {place = p} i run below inside step) =
      omega
        (arith, Continues-steps_left run, sum_over-update rank n f i p below, step-rank step inside)
  Continues-steps_left (changes_beside w run e) = Continues-steps_left run

  Continues-IsBacked :
      {n : ℕ} {s : Shared W} {f : ℕ → Place} {k : ℕ} {s' : Shared W} {f' : ℕ → Place}
      → Continues n s f k s' f'
      → ((j : ℕ) → IsBacked c (f j))
      → (j : ℕ) → IsBacked c (f' j)
  Continues-IsBacked at_once all = all
  Continues-IsBacked (one_goes_on {f' = f} {place = p} i run below inside step) all =
      update-all (λ j. IsBacked c) f i p (Continues-IsBacked run all)
        (step-IsBacked step (Continues-IsBacked run all i))
  Continues-IsBacked (changes_beside w run e) all = Continues-IsBacked run all

  -- On a manager with an empty queue, with any number of threads in publishSample, queueMessage,
  -- flushQueue and pendingCount, whatever the client answers: from any state that they reach, steps
  -- without a new call are at most two for each queued message and those of each thread's place,
  -- however the world changes beside them; and after any number of such steps all threads are
  -- outside, or one that is in a call can go on.
  pub calls_return :
      {n k : ℕ} {w : W} {s s' : Shared W} {f f' : ℕ → Place}
      → Runs c Changes n (new_shared w) (λ j. outside) s f
      → Continues n s f k s' f'
      → (k + steps_left n s' f' ≤ steps_left n s f)
        × (((j : ℕ) → j < n → is_outside (f' j) ≡ true) ⊎ CanGoOn c n s' f')
  calls_return {n = n} {s' = s'} {f' = f'} run more = (
    Continues-steps_left more,
    return_or-GoesOn c n s' f' (Continues-IsBacked more (Runs-IsBacked run)),
  )
