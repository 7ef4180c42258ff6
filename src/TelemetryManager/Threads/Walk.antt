-- ===== src/TelemetryManager/Threads/Walk.antt =====
-- src/TelemetryManager/telemetry_manager.cpp: the steps of one thread while no other one has the lock.
use connected_vehicle_platfo.Prelude.{
  ℕ, ◌<◌, ◌≡◌, ◌≢◌, sym, ap, ◌∙◌, subst, false, Option, ℕ_discrete, update, update_here,
  update_there,
}
use connected_vehicle_platfo.TelemetryManager.Threads.Onward.{is_outside}
use connected_vehicle_platfo.MqttClient.Interface.{IMqttClient}
use connected_vehicle_platfo.TelemetryManager.Threads.{
  Place, outside, has_lock, Shared, IsFree, PlaceStep, makes_sample, queues_message, finds_online,
  finds_offline, is_accepted, is_refused, locks_to_push, pushes, flushes, locks_to_flush, gives_up,
  goes_on, finds_empty, pops, drains, loses, counts, locks_to_count, unlocks,
}

step-map :
    {W : Type 0} {c : Option (IMqttClient W)} {Free Free' : Type 0} {s s' : Shared W} {p p' : Place}
    → (Free → Free')
    → PlaceStep c Free s p s' p'
    → PlaceStep c Free' s p s' p'
step-map h (makes_sample p) = makes_sample p
step-map h (queues_message p) = queues_message p
step-map h (finds_online e) = finds_online e
step-map h (finds_offline e) = finds_offline e
step-map h (is_accepted e) = is_accepted e
step-map h (is_refused e) = is_refused e
step-map h (locks_to_push free) = locks_to_push (h free)
step-map h pushes = pushes
step-map h flushes = flushes
step-map h (locks_to_flush free) = locks_to_flush (h free)
step-map h (gives_up e) = gives_up e
step-map h (goes_on e) = goes_on e
step-map h (finds_empty e) = finds_empty e
step-map h (pops e) = pops e
step-map h (drains e) = drains e
step-map h (loses e) = loses e
step-map h counts = counts
step-map h (locks_to_count free) = locks_to_count (h free)
step-map h unlocks = unlocks

module _ {W : Type 0} (c : Option (IMqttClient W)) where
  -- The steps of one thread from inside a method until it is outside, while no other one has the
  -- lock.
  pub data Walk (s' : Shared W) : Shared W → Place → Type 0 where
    arrives : Walk s' s' outside
    steps :
        {s t : Shared W} {p q : Place}
        → is_outside p ≡ false
        → PlaceStep c (has_lock p ≡ false) s p t q
        → Walk s' t q
        → Walk s' s p

  -- A run of thread `i` among `n` in which no other thread steps, the world does not change beside
  -- it, and it has not left its method before the last step.
  pub data CallRun (n i : ℕ) (s : Shared W) (f : ℕ → Place) : Shared W → (ℕ → Place) → Type 0 where
    has_entered : CallRun n i s f s f
    goes_further :
        {s' s'' : Shared W} {f' : ℕ → Place} {place : Place}
        → CallRun n i s f s' f'
        → is_outside (f' i) ≡ false
        → PlaceStep c (IsFree n f') s' (f' i) s'' place
        → CallRun n i s f s'' (update f' i place)

  own-IsFree :
      (n : ℕ) (f : ℕ → Place) (i : ℕ)
      → ((j : ℕ) → j < n → i ≢ j → has_lock (f j) ≡ false)
      → has_lock (f i) ≡ false
      → IsFree n f
  own-IsFree n f i others own j below = elim (ℕ_discrete i j) [
    | yes same ↦ subst (λ k. has_lock (f k) ≡ false) same own
    | no other ↦ others j below other
  ]

  -- The others stay where they are.
  abbrev pub IsBack : ℕ → (ℕ → Place) → (ℕ → Place) → Place → Type 0
  IsBack i f g p = (g i ≡ p) × ((j : ℕ) → i ≢ j → g j ≡ f j)

  pub Walk-CallRun :
      (n : ℕ) {s0 s' : Shared W} {s : Shared W} {p : Place} (f0 f1 f : ℕ → Place) (i : ℕ)
      → ((j : ℕ) → j < n → i ≢ j → has_lock (f0 j) ≡ false)
      → IsBack i f0 f p
      → CallRun n i s0 f1 s f
      → Walk s' s p
      → (g : ℕ → Place) × CallRun n i s0 f1 s' g × IsBack i f0 g outside
  Walk-CallRun n f0 f1 f i others back run arrives = (f, run, back)
  Walk-CallRun n {p = p} f0 f1 f i others (here, there) run
        (steps {s = s} {t = t} {q = q} inside step walk) =
      let step' = subst (λ x. PlaceStep c (has_lock x ≡ false) s x t q) (sym here) step in
      Walk-CallRun n f0 f1 (update f i q) i others
        (update_here f i q, λ j other. update_there f i j q other ∙ there j other)
        (goes_further run (ap is_outside here ∙ inside) (
          step-map
            (own-IsFree n f i (λ j low other. ap has_lock (there j other) ∙ others j low other))
            step'))
        walk
