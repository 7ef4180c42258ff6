-- ===== src/TelemetryManager/Threads/Order.antt =====
-- src/TelemetryManager/telemetry_manager.cpp: the queue under the lock, with any number of threads.
use connected_vehicle_platfo.Prelude.{
  IsExclusive, update-IsExclusive, ℕ, sum_over, ◌+◌, ◌<◌, ◌≡◌, ◌⊎◌, inl, inr, refl, sym, ap, ◌∙◌,
  Bool, true, false, Bool-cases, Option, [], ◌∷◌, ◌++◌, append_assoc, Text, arith,
}
use connected_vehicle_platfo.MqttClient.Interface.{IMqttClient}
use connected_vehicle_platfo.TelemetryManager.Threads.Account.{amount, in_hand, payloads_add_up}
use connected_vehicle_platfo.TelemetryManager.Threads.{
  Place, outside, has_lock, Shared, new_shared, IsFree, PlaceStep, makes_sample, queues_message,
  finds_online, finds_offline, is_accepted, is_refused, locks_to_push, pushes, flushes,
  locks_to_flush, gives_up, goes_on, finds_empty, pops, drains, loses, counts, locks_to_count,
  unlocks, Runs, at_start, one_steps, world_changes,
}

abbrev pub IsInOrder : {W : Type 0} → Shared W → Type 0
IsInOrder s = s.entered ≡ s.left ++ s.pending_messages

abbrev pub IsSameQueue : {W : Type 0} → Shared W → Shared W → Type 0
IsSameQueue s t =
    (t.pending_messages ≡ s.pending_messages) × (t.entered ≡ s.entered) × (t.left ≡ s.left)

module _ {W : Type 0} {c : Option (IMqttClient W)} {Free : Type 0} {s : Shared W} where
  step-IsInOrder :
      {s' : Shared W} {p p' : Place} → PlaceStep c Free s p s' p' → IsInOrder s → IsInOrder s'
  step-IsInOrder (makes_sample p) h = h
  step-IsInOrder (queues_message p) h = h
  step-IsInOrder (finds_online e) h = h
  step-IsInOrder (finds_offline e) h = h
  step-IsInOrder (is_accepted e) h = h
  step-IsInOrder (is_refused e) h = h
  step-IsInOrder (locks_to_push free) h = h
  step-IsInOrder (pushes {p = p}) h =
      ap (λ l. l ++ p ∷ []) h ∙ append_assoc s.left s.pending_messages (p ∷ [])
  step-IsInOrder flushes h = h
  step-IsInOrder (locks_to_flush free) h = h
  step-IsInOrder (gives_up e) h = h
  step-IsInOrder (goes_on e) h = h
  step-IsInOrder (finds_empty e) h = h
  step-IsInOrder (pops {p = p} {rest = rest} e) h =
      h ∙ ap (λ l. s.left ++ l) e ∙ sym (append_assoc s.left (p ∷ []) rest)
  step-IsInOrder (drains e) h = h
  step-IsInOrder (loses e) h = h
  step-IsInOrder counts h = h
  step-IsInOrder (locks_to_count free) h = h
  step-IsInOrder unlocks h = h

  -- The lock is had from before the step, or taken while it is free.
  step-lock :
      {s' : Shared W} {p p' : Place}
      → PlaceStep c Free s p s' p'
      → has_lock p' ≡ true
      → (has_lock p ≡ true) ⊎ Free
  step-lock (locks_to_push free) h = inr free
  step-lock (locks_to_flush free) h = inr free
  step-lock (locks_to_count free) h = inr free
  step-lock pushes h = inl refl
  step-lock (gives_up e) h = inl refl
  step-lock (goes_on e) h = inl refl
  step-lock (finds_empty e) h = inl refl
  step-lock (pops e) h = inl refl
  step-lock (drains e) h = inl refl
  step-lock (loses e) h = inl refl
  step-lock (makes_sample p) h = absurd (ground arith)
  step-lock (queues_message p) h = absurd (ground arith)
  step-lock (finds_online e) h = absurd (ground arith)
  step-lock (finds_offline e) h = absurd (ground arith)
  step-lock (is_accepted e) h = absurd (ground arith)
  step-lock (is_refused e) h = absurd (ground arith)
  step-lock flushes h = absurd (ground arith)
  step-lock counts h = absurd (ground arith)
  step-lock unlocks h = absurd (ground arith)

  -- Without the lock the queue is left alone.
  step-IsSameQueue :
      {s' : Shared W} {p p' : Place}
      → PlaceStep c Free s p s' p'
      → has_lock p ≡ false
      → IsSameQueue s s'
  step-IsSameQueue (makes_sample p) h = (refl, refl, refl)
  step-IsSameQueue (queues_message p) h = (refl, refl, refl)
  step-IsSameQueue (finds_online e) h = (refl, refl, refl)
  step-IsSameQueue (finds_offline e) h = (refl, refl, refl)
  step-IsSameQueue (is_accepted e) h = (refl, refl, refl)
  step-IsSameQueue (is_refused e) h = (refl, refl, refl)
  step-IsSameQueue (locks_to_push free) h = (refl, refl, refl)
  step-IsSameQueue pushes h = absurd (ground arith)
  step-IsSameQueue flushes h = (refl, refl, refl)
  step-IsSameQueue (locks_to_flush free) h = (refl, refl, refl)
  step-IsSameQueue (gives_up e) h = (refl, refl, refl)
  step-IsSameQueue (goes_on e) h = (refl, refl, refl)
  step-IsSameQueue (finds_empty e) h = (refl, refl, refl)
  step-IsSameQueue (pops e) h = absurd (ground arith)
  step-IsSameQueue (drains e) h = (refl, refl, refl)
  step-IsSameQueue (loses e) h = (refl, refl, refl)
  step-IsSameQueue counts h = (refl, refl, refl)
  step-IsSameQueue (locks_to_count free) h = (refl, refl, refl)
  step-IsSameQueue unlocks h = (refl, refl, refl)

stays_out :
    {p p' : Bool} {Free : Type 0}
    → (p' ≡ true → (p ≡ true) ⊎ Free)
    → p ≡ false
    → ¬ Free
    → p' ≡ false
stays_out {p' = p'} locks without taken = elim (Bool-cases p') [
  | inr out ↦ out
  | inl had ↦ elim (locks had) [
    | inl before ↦ absurd (ground arith)
    | inr free ↦ absurd (taken free)
  ]
]

module _ {W : Type 0} {c : Option (IMqttClient W)} {Changes : W → W → Type 0} {n : ℕ} {w : W} where
  pub Runs-IsExclusive :
      {s : Shared W} {f : ℕ → Place}
      → Runs c Changes n (new_shared w) (λ j. outside) s f
      → IsExclusive has_lock n f
  Runs-IsExclusive at_start = λ i j below below' h h'. absurd (ground arith)
  Runs-IsExclusive (one_steps {f' = f} {place = p} i run below step) =
      update-IsExclusive has_lock n f i p (Runs-IsExclusive run) below (step-lock step)
  Runs-IsExclusive (world_changes w' run e) = Runs-IsExclusive run

  Runs-IsInOrder :
      {s : Shared W} {f : ℕ → Place}
      → Runs c Changes n (new_shared w) (λ j. outside) s f
      → IsInOrder s
  Runs-IsInOrder at_start = refl
  Runs-IsInOrder (one_steps i run below step) = step-IsInOrder step (Runs-IsInOrder run)
  Runs-IsInOrder (world_changes w' run e) = Runs-IsInOrder run

  -- On a manager with an empty queue, with any number of threads in publishSample, queueMessage,
  -- flushQueue and pendingCount, whatever the client answers and however the world changes beside
  -- them: by any weight of payloads, those that the callers have made are those that the client has
  -- accepted, those that flushQueue has lost, those in the queue and those that the threads have at
  -- hand; and the payloads that have entered the queue, in their order, are those that have left it
  -- in theirs, and then those in the queue.
  pub nothing_vanishes :
      {s : Shared W} {f : ℕ → Place} (weight : Text → ℕ)
      → Runs c Changes n (new_shared w) (λ j. outside) s f
      → (amount weight s.made
          ≡ amount weight s.accepted
            + amount weight s.lost
            + amount weight s.pending_messages
            + sum_over (in_hand weight) n f)
        × IsInOrder s
  nothing_vanishes weight run = (payloads_add_up weight run, Runs-IsInOrder run)

  -- On a manager with an empty queue, with any number of threads in publishSample, queueMessage,
  -- flushQueue and pendingCount: while one thread has the lock, a step of another one changes
  -- nothing in the queue and does not take the lock.
  pub lock_guards_queue :
      {s s' : Shared W} {f : ℕ → Place} {p : Place} (i j : ℕ)
      → Runs c Changes n (new_shared w) (λ j. outside) s f
      → i < n
      → j < n
      → has_lock (f i) ≡ true
      → PlaceStep c (IsFree n f) s (f j) s' p
      → (i ≡ j) ⊎ (IsSameQueue s s' × (has_lock p ≡ false))
  lock_guards_queue {f = f} {p = p} i j run below below' held step =
      elim (Bool-cases (has_lock (f j))) [
        | inl had ↦ inl (Runs-IsExclusive run i j below below' held had)
        | inr without ↦ inr (
          step-IsSameQueue step without,
          stays_out (step-lock step) without (λ free. let none = free i below in ground arith),
        )
      ]
