-- ===== src/TelemetryManager/Threads/Alone.antt =====
-- src/TelemetryManager/telemetry_manager.cpp: a call that no other thread interrupts, as a run of the
-- threads.
use connected_vehicle_platfo.Prelude.{
  ℕ, ◌≡◌, inl, inr, arith, refl, sym, ap, ◌∙◌, subst, Bool, false, Bool-cases, Option, none, some,
  List, [], ◌∷◌, Text, Action, ℕ_discrete, update, update_here, update_there,
}
use connected_vehicle_platfo.Platform.{Platform}
use connected_vehicle_platfo.TelemetryManager.Threads.Onward.{is_outside}
use connected_vehicle_platfo.MqttClient.Interface.{IMqttClient}
use connected_vehicle_platfo.TelemetryManager.Sample.{Doubles}
use connected_vehicle_platfo.TelemetryManager.{
  TelemetryManager, queue_message, send, flush_loop, deliver, publish_sample, flush, flush_queue,
}
use connected_vehicle_platfo.TelemetryManager.Queue.{payload_of}
use connected_vehicle_platfo.TelemetryManager.Threads.Walk.{
  Walk, arrives, steps, CallRun, has_entered, Walk-CallRun,
}
use connected_vehicle_platfo.TelemetryManager.Threads.{
  Place, outside, asking, queueing, flushing, looping, has_lock, IsFree, Shared, PlaceStep,
  makes_sample, queues_message, finds_online, finds_offline, is_accepted, is_refused, locks_to_push,
  pushes, flushes, locks_to_flush, gives_up, goes_on, finds_empty, pops, drains, loses, unlocks,
}

-- The manager whose queue is the one of the threads.
abbrev pub with_queue : {W : Type 0} → Text → Shared W → TelemetryManager
with_queue v s = record { vehicle_id = v; pending_messages = s.pending_messages }

module _ {W : Type 0} (c : Option (IMqttClient W)) where
  -- The thread walks out of the method, and leaves this queue and this world.
  abbrev pub Ends : Shared W → Place → List Text → W → Type 0
  Ends s p queue w =
      (s' : Shared W) × Walk c s' s p × (s'.pending_messages ≡ queue) × (s'.world ≡ w)

  -- It leaves the queue and the world of a result.
  abbrev pub EndsAs : Shared W → Place → TelemetryManager × W → Type 0
  EndsAs s p (m, w) = Ends s p m.pending_messages w

  pub then-Ends :
      {s t : Shared W} {p q : Place} {queue : List Text} {w : W}
      → is_outside p ≡ false
      → PlaceStep c (has_lock p ≡ false) s p t q
      → Ends t q queue w
      → Ends s p queue w
  then-Ends inside step (s', walk, queue, world) = (s', steps inside step walk, queue, world)

  queue-Ends :
      (v : Text) (s : Shared W) (p : Text)
      → EndsAs s (queueing p) (queue_message p (with_queue v s, s.world)).1
  unfolding queue_message
  queue-Ends v s p =
      then-Ends refl (locks_to_push refl)
        (then-Ends refl pushes (then-Ends refl unlocks (_, arrives, refl, refl)))

module _ {W : Type 0} (client : IMqttClient W) where
  answer-send :
      (p : Text) (w : W) {ok : Bool}
      → (send client p w).0 ≡ ok
      → send client p w ≡ (ok, (send client p w).1)
  answer-send p w h = ap (λ b. (b, (send client p w).1)) h

  loop-Ends :
      (queue : List Text) (s : Shared W)
      → s.pending_messages ≡ queue
      → let (ok, (rest, w')) = flush_loop client queue s.world in
        Ends (some client) s looping rest w'
  unfolding flush_loop
  loop-Ends [] s h = (s, steps refl (finds_empty h) (steps refl unlocks arrives), h, refl)
  loop-Ends (p ∷ queue) s h = elim (Bool-cases (send client p s.world).0) [
    | inl ok ↦ rw ok (
        then-Ends (some client) refl (pops h) (
          then-Ends (some client) refl (drains (answer-send p s.world ok))
            (loop-Ends queue _ refl)))
    | inr refused ↦ rw refused (
        then-Ends (some client) refl (pops h) (
          then-Ends (some client) refl (loses (answer-send p s.world refused))
            (then-Ends (some client) refl unlocks (_, arrives, refl, refl))))
  ]

  deliver-Ends :
      (v : Text) (s : Shared W) (p : Text)
      → EndsAs (some client) s (asking p) (deliver (some client) p (with_queue v s, s.world)).1
  unfolding deliver
  deliver-Ends v s p = elim (Bool-cases (client.is_connected s.world)) [
    | inr down ↦ rw down (
        then-Ends (some client) refl (finds_offline (λ up. ground arith))
          (queue-Ends (some client) v s p))
    | inl up ↦ rw up (elim (Bool-cases (send client p s.world).0) [
      | inl ok ↦ rw ok (
          then-Ends (some client) refl (finds_online up) (
            then-Ends (some client) refl (is_accepted (answer-send p s.world ok))
              (_, arrives, refl, refl)))
      | inr refused ↦ rw refused (
          then-Ends (some client) refl (finds_online up) (
            then-Ends (some client) refl (is_refused (answer-send p s.world refused))
              (queue-Ends (some client) v _ p)))
    ])
  ]

  flush-Ends :
      (v : Text) (s : Shared W)
      → EndsAs (some client) s flushing (flush (some client) (with_queue v s, s.world)).1
  unfolding flush
  flush-Ends v s = elim (Bool-cases (client.is_connected s.world)) [
    | inr down ↦ rw down (
        then-Ends (some client) refl (locks_to_flush refl) (
          then-Ends (some client) refl (gives_up (λ up. ground arith))
            (then-Ends (some client) refl unlocks (_, arrives, refl, refl))))
    | inl up ↦ rw up (
        then-Ends (some client) refl (locks_to_flush refl)
          (then-Ends (some client) refl (goes_on up) (loop-Ends s.pending_messages s refl)))
  ]

-- A call of a method of the manager.
pub data Call : Type 0 where
  publishes_sample : Call
  queues : Text → Call
  flushes_queue : Call

module _ {W D : Type 0} (platform : Platform W) (doubles : Doubles D)
    (c : Option (IMqttClient W)) where
  pub perform : Call → Action (TelemetryManager × W) Bool
  perform publishes_sample s = publish_sample platform doubles c s
  perform (queues message) s = queue_message message s
  perform flushes_queue s = flush_queue c s

  -- Where the call is inside the method, and what it has come to there: publishSample has made its
  -- payload, queueMessage has been given one, and flushQueue is before the lock.
  abbrev pub entered : Call → Text → Shared W → Shared W × Place
  entered publishes_sample v s =
      let (payload, w) = payload_of platform doubles (with_queue v s) s.world in
      (record s { world = w; made = payload ∷ s.made }, asking payload)
  entered (queues message) v s = (record s { made = message ∷ s.made }, queueing message)
  entered flushes_queue v s = (s, flushing)

  -- The state in which it enters: publishSample has taken the time of its sample.
  abbrev pub entering : Call → Text → Shared W → Shared W
  entering publishes_sample v s = record s {
    world = (payload_of platform doubles (with_queue v s) s.world).1;
  }
  entering (queues message) v s = s
  entering flushes_queue v s = s

  enters :
      (Free : Type 0) (call : Call) (v : Text) (s : Shared W)
      → let (t, place) = entered call v s in PlaceStep c Free (entering call v s) outside t place
  enters Free publishes_sample v s = makes_sample _
  enters Free (queues message) v s = queues_message message
  enters Free flushes_queue v s = flushes

  payload-Ends :
      (c : Option (IMqttClient W)) (v : Text) (s : Shared W) (p : Text)
      → EndsAs c s (asking p) (deliver c p (with_queue v s, s.world)).1
  unfolding deliver
  payload-Ends none v s p = then-Ends none refl (finds_offline (λ h. h)) (queue-Ends none v s p)
  payload-Ends (some client) v s p = deliver-Ends client v s p

  any_flush-Ends :
      (c : Option (IMqttClient W)) (v : Text) (s : Shared W)
      → EndsAs c s flushing (flush c (with_queue v s, s.world)).1
  unfolding flush
  any_flush-Ends none v s = then-Ends none refl (locks_to_flush refl) (
      then-Ends none refl (gives_up (λ h. h))
        (then-Ends none refl unlocks (_, arrives, refl, refl)))
  any_flush-Ends (some client) v s = flush-Ends client v s

  perform-Ends :
      (call : Call) (v : Text) (s : Shared W)
      → let (t, place) = entered call v s in
        EndsAs c t place (perform call (with_queue v s, s.world)).1
  unfolding perform publish_sample flush_queue
  perform-Ends publishes_sample v s = payload-Ends c v _ _
  perform-Ends (queues message) v s = queue-Ends c v _ message
  perform-Ends flushes_queue v s = any_flush-Ends c v s

  -- Where no thread has the lock and the thread is outside, the call of publishSample, queueMessage
  -- or flushQueue as one function is one call in steps: the thread enters the method, publishSample
  -- with the payload of its sample after the time has been taken, queueMessage with its message;
  -- from there steps of this thread alone, none of them from outside a method and without any other
  -- change of the world, lead to the queue and the world of the function, with every thread where
  -- it was.
  pub call-Runs :
      (n : ℕ) (call : Call) (v : Text) (s : Shared W) (f : ℕ → Place) (i : ℕ)
      → f i ≡ outside
      → IsFree n f
      → let (m, w) = (perform call (with_queue v s, s.world)).1 in
        let (t, place) = entered call v s in
        PlaceStep c (IsFree n f) (entering call v s) (f i) t place
        × ((s' : Shared W) × (g : ℕ → Place) × CallRun c n i t (update f i place) s' g
            × (s'.pending_messages ≡ m.pending_messages)
            × (s'.world ≡ w)
            × ((j : ℕ) → g j ≡ f j))
  call-Runs n call v s f i out free =
      let (t, place) = entered call v s in
      let (s', walk, queue, world) = perform-Ends call v s in
      let (g, run, back) =
        Walk-CallRun c n f (update f i place) (update f i place) i (λ j low other. free j low)
          (update_here f i place, λ j other. update_there f i j place other) has_entered walk in
      (
        subst (λ x. PlaceStep c (IsFree n f) (entering call v s) x t place) (sym out)
            (enters (IsFree n f) call v s),
        (
          s',
          g,
          run,
          queue,
          world,
          λ j. elim (ℕ_discrete i j) [
            | yes same ↦ subst (λ k. g k ≡ f k) same (back.0 ∙ sym out)
            | no other ↦ back.1 j other
          ],
        ),
      )
