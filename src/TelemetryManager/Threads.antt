-- ===== src/TelemetryManager/Threads.antt =====
-- src/TelemetryManager/telemetry_manager.cpp: any number of threads inside the methods of one
-- manager. `publishSample` asks and publishes without the lock and takes it for the queue;
-- `flushQueue` has it throughout. A call of the client is one step: the client locks it.
pub mod Account
pub mod Order
pub mod Walk
pub mod Alone
pub mod Onward
pub mod Return
mod Tests
use connected_vehicle_platfo.Prelude.{
  ℕ, zero, ◌<◌, ◌≡◌, Bool, true, false, Option, none, some, List, [], ◌∷◌, ◌++◌, Text, update,
}
use connected_vehicle_platfo.MqttClient.Interface.{IMqttClient}
use connected_vehicle_platfo.TelemetryManager.{send}

-- Where a thread stands. `publishSample`: asking, sending; `queueMessage`: queueing, and pushing under
-- the lock; `flushQueue`: flushing, and under the lock testing, looping and popped; `pendingCount`:
-- counting. `leaving` is before the end of a method that has the lock.
pub data Place : Type 0 where
  outside : Place
  asking : Text → Place
  sending : Text → Place
  queueing : Text → Place
  pushing : Text → Place
  flushing : Place
  testing : Place
  looping : Place
  popped : Text → Place
  counting : Place
  leaving : Place

abbrev pub has_lock : Place → Bool
has_lock outside = false
has_lock (asking p) = false
has_lock (sending p) = false
has_lock (queueing p) = false
has_lock (pushing p) = true
has_lock flushing = false
has_lock testing = true
has_lock looping = true
has_lock (popped p) = true
has_lock counting = false
has_lock leaving = true

-- The queue and the world, and what has happened: the payloads that callers have made, those that the
-- client has accepted, those that `flushQueue` has lost, and those that entered and left the queue.
pub record Shared (W : Type 0) : Type 0 where
  pub pending_messages : List Text
  pub world : W
  pub made : List Text
  pub accepted : List Text
  pub lost : List Text
  pub entered : List Text
  pub left : List Text

-- A queue on which nothing has happened.
abbrev pub new_shared : {W : Type 0} → W → Shared W
new_shared w = record {
  pending_messages = [];
  world = w;
  made = [];
  accepted = [];
  lost = [];
  entered = [];
  left = [];
}

-- The pointer is not null, and the client says that it is connected.
abbrev pub IsOnline : {W : Type 0} → Option (IMqttClient W) → W → Type 0
IsOnline none w = ⊥
IsOnline (some client) w = client.is_connected w ≡ true

-- The client's answer to the payload, and the world afterwards.
abbrev pub Answers : {W : Type 0} → Option (IMqttClient W) → Text → W → Bool → W → Type 0
Answers none p w ok w' = ⊥
Answers (some client) p w ok w' = send client p w ≡ (ok, w')

-- None of the `n` threads has the lock.
abbrev pub IsFree : ℕ → (ℕ → Place) → Type 0
IsFree n f = (j : ℕ) → j < n → has_lock (f j) ≡ false

module _ {W : Type 0} (mqtt_client : Option (IMqttClient W)) where
  -- A step of one thread, where `Free` says that no thread has the lock.
  pub data PlaceStep (Free : Type 0) (s : Shared W) : Place → Shared W → Place → Type 0 where
    makes_sample : (p : Text) → PlaceStep Free s outside (record s { made = p ∷ s.made }) (asking p)
    queues_message :
        (p : Text) → PlaceStep Free s outside (record s { made = p ∷ s.made }) (queueing p)
    finds_online :
        {p : Text} → IsOnline mqtt_client s.world → PlaceStep Free s (asking p) s (sending p)
    finds_offline :
        {p : Text} → ¬ IsOnline mqtt_client s.world → PlaceStep Free s (asking p) s (queueing p)
    is_accepted :
        {p : Text} {w : W}
        → Answers mqtt_client p s.world true w
        → PlaceStep Free s (sending p) (record s { world = w; accepted = p ∷ s.accepted }) outside
    is_refused :
        {p : Text} {w : W}
        → Answers mqtt_client p s.world false w
        → PlaceStep Free s (sending p) (record s { world = w }) (queueing p)
    locks_to_push : {p : Text} → Free → PlaceStep Free s (queueing p) s (pushing p)
    pushes :
        {p : Text}
        → PlaceStep Free s
            (pushing p)
            (record s {
              pending_messages = s.pending_messages ++ p ∷ [];
              entered = s.entered ++ p ∷ [];
            })
            leaving
    flushes : PlaceStep Free s outside s flushing
    locks_to_flush : Free → PlaceStep Free s flushing s testing
    gives_up : ¬ IsOnline mqtt_client s.world → PlaceStep Free s testing s leaving
    goes_on : IsOnline mqtt_client s.world → PlaceStep Free s testing s looping
    finds_empty : s.pending_messages ≡ [] → PlaceStep Free s looping s leaving
    pops :
        {p : Text} {rest : List Text}
        → s.pending_messages ≡ p ∷ rest
        → PlaceStep Free s looping
            (record s { pending_messages = rest; left = s.left ++ p ∷ [] })
            (popped p)
    drains :
        {p : Text} {w : W}
        → Answers mqtt_client p s.world true w
        → PlaceStep Free s (popped p) (record s { world = w; accepted = p ∷ s.accepted }) looping
    loses :
        {p : Text} {w : W}
        → Answers mqtt_client p s.world false w
        → PlaceStep Free s (popped p) (record s { world = w; lost = p ∷ s.lost }) leaving
    counts : PlaceStep Free s outside s counting
    locks_to_count : Free → PlaceStep Free s counting s leaving
    unlocks : PlaceStep Free s leaving s outside

  -- What `n` threads can come to, from a state of the queue and places. The world also changes beside
  -- them, as `Changes` says.
  pub data Runs (Changes : W → W → Type 0) (n : ℕ) (s : Shared W) (f : ℕ → Place)
      : Shared W → (ℕ → Place) → Type 0 where
    at_start : Runs Changes n s f s f
    one_steps :
        {s' s'' : Shared W} {f' : ℕ → Place} {place : Place} (i : ℕ)
        → Runs Changes n s f s' f'
        → i < n
        → PlaceStep (IsFree n f') s' (f' i) s'' place
        → Runs Changes n s f s'' (update f' i place)
    world_changes :
        {s' : Shared W} {f' : ℕ → Place} (w : W)
        → Runs Changes n s f s' f'
        → Changes s'.world w
        → Runs Changes n s f (record s' { world = w }) f'
