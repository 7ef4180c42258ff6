-- ===== src/TelemetryManager/Threads/Onward.antt =====
-- src/TelemetryManager/telemetry_manager.cpp: where a thread is in a call, some thread can go on.
use connected_vehicle_platfo.Prelude.{
  ℕ, zero, suc, ◌<◌, ◌≡◌, ◌⊎◌, inl, inr, refl, ap, subst, Bool, true, false, not, Bool-cases,
  Option, none, some, List, [], ◌∷◌, Text, arith, ℕ_discrete, update-all,
}
use connected_vehicle_platfo.MqttClient.Interface.{IMqttClient}
use connected_vehicle_platfo.TelemetryManager.{send}
use connected_vehicle_platfo.TelemetryManager.Threads.{
  Place, outside, asking, sending, queueing, pushing, flushing, testing, looping, popped, counting,
  leaving, has_lock, Shared, new_shared, IsOnline, Answers, IsFree, PlaceStep, makes_sample,
  queues_message, finds_online, finds_offline, is_accepted, is_refused, locks_to_push, pushes,
  flushes, locks_to_flush, gives_up, goes_on, finds_empty, pops, drains, loses, counts,
  locks_to_count, unlocks, Runs, at_start, one_steps, world_changes,
}

abbrev pub is_outside : Place → Bool
is_outside outside = true
is_outside (asking p) = false
is_outside (sending p) = false
is_outside (queueing p) = false
is_outside (pushing p) = false
is_outside flushing = false
is_outside testing = false
is_outside looping = false
is_outside (popped p) = false
is_outside counting = false
is_outside leaving = false

-- Only with a client does a thread come to a call of it.
abbrev pub HasClient : {W : Type 0} → Option (IMqttClient W) → Type 0
HasClient none = ⊥
HasClient (some client) = Unit {0}

abbrev pub IsBacked : {W : Type 0} → Option (IMqttClient W) → Place → Type 0
IsBacked c outside = Unit {0}
IsBacked c (asking p) = Unit {0}
IsBacked c (sending p) = HasClient c
IsBacked c (queueing p) = Unit {0}
IsBacked c (pushing p) = Unit {0}
IsBacked c flushing = Unit {0}
IsBacked c testing = Unit {0}
IsBacked c looping = HasClient c
IsBacked c (popped p) = HasClient c
IsBacked c counting = Unit {0}
IsBacked c leaving = Unit {0}

right_of : {Free : Type 0} → (false ≡ true) ⊎ Free → Free
right_of (inl h) = absurd (ground arith)
right_of (inr free) = free

empty_or_not : (l : List Text) → (l ≡ []) ⊎ ((p : Text) × (rest : List Text) × (l ≡ p ∷ rest))
empty_or_not [] = inl refl
empty_or_not (p ∷ rest) = inr (p, rest, refl)

inside_of : (p : Place) → has_lock p ≡ true → is_outside p ≡ false
inside_of outside held = absurd (ground arith)
inside_of (asking p) held = refl
inside_of (sending p) held = refl
inside_of (queueing p) held = refl
inside_of (pushing p) held = refl
inside_of flushing held = refl
inside_of testing held = refl
inside_of looping held = refl
inside_of (popped p) held = refl
inside_of counting held = refl
inside_of leaving held = refl

not-true : (b : Bool) → not b ≡ true → b ≡ false
not-true b h = ground arith

not-false : (b : Bool) → not b ≡ false → b ≡ true
not-false b h = ground arith

-- One of the first `n` members passes the test, or none does.
first_with :
    {A : Type 0} (test : A → Bool) (n : ℕ) (f : ℕ → A)
    → ((i : ℕ) × (i < n) × (test (f i) ≡ true)) ⊎ ((j : ℕ) → j < n → test (f j) ≡ false)
first_with test zero f = inr (λ j below. absurd (omega arith))
first_with test (suc n) f = elim (Bool-cases (test (f n))) [
  | inl passes ↦ inl (n, omega arith, passes)
  | inr fails ↦ elim (first_with test n f) [
    | inl (i, below, passes) ↦ inl (i, omega arith, passes)
    | inr others ↦ inr (λ j below. elim (ℕ_discrete n j) [
      | yes last ↦ subst (λ k. test (f k) ≡ false) last fails
      | no other ↦ others j (omega arith)
    ])
  ]
]

module _ {W : Type 0} where
  online-HasClient : (c : Option (IMqttClient W)) (w : W) → IsOnline c w → HasClient c
  online-HasClient none w h = h
  online-HasClient (some client) w h = tt

  pub step-IsBacked :
      {c : Option (IMqttClient W)} {Free : Type 0} {s s' : Shared W} {p p' : Place}
      → PlaceStep c Free s p s' p'
      → IsBacked c p
      → IsBacked c p'
  step-IsBacked (makes_sample p) h = tt
  step-IsBacked (queues_message p) h = tt
  step-IsBacked {c = c} {s = s} (finds_online e) h = online-HasClient c s.world e
  step-IsBacked (finds_offline e) h = tt
  step-IsBacked (is_accepted e) h = tt
  step-IsBacked (is_refused e) h = tt
  step-IsBacked (locks_to_push free) h = tt
  step-IsBacked pushes h = tt
  step-IsBacked flushes h = tt
  step-IsBacked (locks_to_flush free) h = tt
  step-IsBacked (gives_up e) h = tt
  step-IsBacked {c = c} {s = s} (goes_on e) h = online-HasClient c s.world e
  step-IsBacked (finds_empty e) h = tt
  step-IsBacked (pops e) h = h
  step-IsBacked (drains e) h = h
  step-IsBacked (loses e) h = tt
  step-IsBacked counts h = tt
  step-IsBacked (locks_to_count free) h = tt
  step-IsBacked unlocks h = tt

  pub Runs-IsBacked :
      {c : Option (IMqttClient W)} {Changes : W → W → Type 0} {n : ℕ} {w : W} {s : Shared W}
      {f : ℕ → Place}
      → Runs c Changes n (new_shared w) (λ j. outside) s f
      → (j : ℕ) → IsBacked c (f j)
  Runs-IsBacked at_start = λ j. tt
  Runs-IsBacked {c = c} (one_steps {f' = f} {place = p} i run below step) =
      update-all (λ j. IsBacked c) f i p (Runs-IsBacked run)
        (step-IsBacked step (Runs-IsBacked run i))
  Runs-IsBacked (world_changes w run e) = Runs-IsBacked run

  -- A next step from the place, whatever the client answers.
  abbrev pub GoesOn : Option (IMqttClient W) → Type 0 → Shared W → Place → Type 0
  GoesOn c Free s p = (s' : Shared W) × (p' : Place) × PlaceStep c Free s p s' p'

  IsOnline-or_not : (c : Option (IMqttClient W)) (w : W) → IsOnline c w ⊎ ¬ IsOnline c w
  IsOnline-or_not none w = inr (λ h. h)
  IsOnline-or_not (some client) w = elim (Bool-cases (client.is_connected w)) [
    | inl up ↦ inl up
    | inr down ↦ inr (λ up. ground arith)
  ]

  answer_of :
      (c : Option (IMqttClient W)) (p : Text) (w : W)
      → HasClient c
      → (w' : W) × (Answers c p w true w' ⊎ Answers c p w false w')
  answer_of none p w h = elim h [ ]
  answer_of (some client) p w h = (
    (send client p w).1,
    elim (Bool-cases (send client p w).0) [
      | inl ok ↦ inl (ap (λ b. (b, (send client p w).1)) ok)
      | inr refused ↦ inr (ap (λ b. (b, (send client p w).1)) refused)
    ],
  )

  -- One of the threads is in a call and can go on with it.
  abbrev pub CanGoOn : Option (IMqttClient W) → ℕ → Shared W → (ℕ → Place) → Type 0
  CanGoOn c n s f = (i : ℕ) × (i < n) × (is_outside (f i) ≡ false) × GoesOn c (IsFree n f) s (f i)

  place-GoesOn :
      (c : Option (IMqttClient W)) {Free : Type 0} (s : Shared W) (p : Place)
      → IsBacked c p
      → is_outside p ≡ false
      → (has_lock p ≡ true) ⊎ Free
      → GoesOn c Free s p
  place-GoesOn c s outside backed inside free = absurd (ground arith)
  place-GoesOn c s (asking p) backed inside free = elim (IsOnline-or_not c s.world) [
    | inl up ↦ (_, _, finds_online up)
    | inr down ↦ (_, _, finds_offline down)
  ]
  place-GoesOn c s (sending p) backed inside free = elim (answer_of c p s.world backed).1 [
    | inl ok ↦ (_, _, is_accepted ok)
    | inr refused ↦ (_, _, is_refused refused)
  ]
  place-GoesOn c s (queueing p) backed inside free = (_, _, locks_to_push (right_of free))
  place-GoesOn c s (pushing p) backed inside free = (_, _, pushes)
  place-GoesOn c s flushing backed inside free = (_, _, locks_to_flush (right_of free))
  place-GoesOn c s testing backed inside free = elim (IsOnline-or_not c s.world) [
    | inl up ↦ (_, _, goes_on up)
    | inr down ↦ (_, _, gives_up down)
  ]
  place-GoesOn c s looping backed inside free = elim (empty_or_not s.pending_messages) [
    | inl empty ↦ (_, _, finds_empty empty)
    | inr (p, rest, e) ↦ (_, _, pops e)
  ]
  place-GoesOn c s (popped p) backed inside free = elim (answer_of c p s.world backed).1 [
    | inl ok ↦ (_, _, drains ok)
    | inr refused ↦ (_, _, loses refused)
  ]
  place-GoesOn c s counting backed inside free = (_, _, locks_to_count (right_of free))
  place-GoesOn c s leaving backed inside free = (_, _, unlocks)

  -- A holder of the lock can go on, and where there is none, so can every thread in a call.
  pub return_or-GoesOn :
      (c : Option (IMqttClient W)) (n : ℕ) (s : Shared W) (f : ℕ → Place)
      → ((j : ℕ) → IsBacked c (f j))
      → ((j : ℕ) → j < n → is_outside (f j) ≡ true) ⊎ CanGoOn c n s f
  return_or-GoesOn c n s f backed = elim (first_with (λ p. has_lock p) n f) [
    | inl (i, below, held) ↦ inr (
      i,
      below,
      inside_of (f i) held,
      place-GoesOn c s (f i) (backed i) (inside_of (f i) held) (inl held),
    )
    | inr free ↦ elim (first_with (λ p. not (is_outside p)) n f) [
      | inl (i, below, inside) ↦
          let inside' = not-true (is_outside (f i)) inside in
          inr (i, below, inside', place-GoesOn c s (f i) (backed i) inside' (inr free))
      | inr none_inside ↦ inl (λ j below. not-false (is_outside (f j)) (none_inside j below))
    ]
  ]
