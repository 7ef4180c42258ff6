-- ===== src/TelemetryManager/Threads/Account.antt =====
-- src/TelemetryManager/telemetry_manager.cpp: where the payloads of any number of threads are.
use connected_vehicle_platfo.Prelude.{
  ℕ, ◌+◌, ◌≡◌, refl, ap, Option, List, [], ◌∷◌, ◌++◌, Text, arith, sum_over, sum_over-update,
  sum_over-zero,
}
use connected_vehicle_platfo.MqttClient.Interface.{IMqttClient}
use connected_vehicle_platfo.TelemetryManager.Threads.{
  Place, outside, asking, sending, queueing, pushing, flushing, testing, looping, popped, counting,
  leaving, Shared, new_shared, PlaceStep, makes_sample, queues_message, finds_online, finds_offline,
  is_accepted, is_refused, locks_to_push, pushes, flushes, locks_to_flush, gives_up, goes_on,
  finds_empty, pops, drains, loses, counts, locks_to_count, unlocks, Runs, at_start, one_steps,
  world_changes,
}

module _ (weight : Text → ℕ) where
  unfoldable pub amount : List Text → ℕ
  amount [] = 0
  amount (p ∷ rest) = weight p + amount rest

  amount-append : (a b : List Text) → amount (a ++ b) ≡ amount a + amount b
  unfolding amount
  amount-append [] b = omega arith
  amount-append (p ∷ rest) b = omega (arith, amount-append rest b)

  -- The payload that a thread has, which is neither in the queue nor with the client.
  abbrev pub in_hand : Place → ℕ
  in_hand outside = 0
  in_hand (asking p) = weight p
  in_hand (sending p) = weight p
  in_hand (queueing p) = weight p
  in_hand (pushing p) = weight p
  in_hand flushing = 0
  in_hand testing = 0
  in_hand looping = 0
  in_hand (popped p) = weight p
  in_hand counting = 0
  in_hand leaving = 0

  abbrev pub settled : {W : Type 0} → Shared W → ℕ
  settled s = amount s.accepted + amount s.lost + amount s.pending_messages

  -- What a step makes is what it adds elsewhere.
  step-balance :
      {W : Type 0} {c : Option (IMqttClient W)} {Free : Type 0} {s s' : Shared W} {p p' : Place}
      → PlaceStep c Free s p s' p'
      → amount s'.made + (settled s + in_hand p) ≡ amount s.made + (settled s' + in_hand p')
  unfolding amount
  step-balance (makes_sample p) = omega arith
  step-balance (queues_message p) = omega arith
  step-balance (finds_online e) = refl
  step-balance (finds_offline e) = refl
  step-balance (is_accepted e) = omega arith
  step-balance (is_refused e) = refl
  step-balance (locks_to_push free) = refl
  step-balance {s = s} (pushes {p = p}) =
      let at_back = amount-append s.pending_messages (p ∷ []) in omega arith
  step-balance flushes = refl
  step-balance (locks_to_flush free) = refl
  step-balance (gives_up e) = refl
  step-balance (goes_on e) = refl
  step-balance (finds_empty e) = refl
  step-balance (pops e) = let at_front = ap amount e in omega arith
  step-balance (drains e) = omega arith
  step-balance (loses e) = omega arith
  step-balance counts = refl
  step-balance (locks_to_count free) = refl
  step-balance unlocks = refl

  pub payloads_add_up :
      {W : Type 0} {c : Option (IMqttClient W)} {Changes : W → W → Type 0} {n : ℕ} {w : W}
      {s : Shared W} {f : ℕ → Place}
      → Runs c Changes n (new_shared w) (λ j. outside) s f
      → amount s.made
        ≡ amount s.accepted + amount s.lost + amount s.pending_messages + sum_over in_hand n f
  unfolding amount
  payloads_add_up {n = n} at_start =
      omega (arith, sum_over-zero in_hand n (λ j. outside) (λ i below. refl))
  payloads_add_up {n = n} (one_steps {f' = f} {place = p} i run below step) =
      omega (arith, payloads_add_up run, sum_over-update in_hand n f i p below, step-balance step)
  payloads_add_up (world_changes w run e) = payloads_add_up run
