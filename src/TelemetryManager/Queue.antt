-- ===== src/TelemetryManager/Queue.antt =====
-- src/TelemetryManager/telemetry_manager.cpp: which messages are sent, kept and lost.
use connected_vehicle_platfo.Prelude.{
  ◌≡◌, refl, sym, ap, ◌∙◌, ◌⊎◌, inl, inr, Bool, false, true, Option, none, some, List, [], ◌∷◌,
  ◌++◌, Text, Action, arith, Bool-cases, append-nil, length, ◌≤◌,
}
use connected_vehicle_platfo.Platform.{Platform}
use connected_vehicle_platfo.MqttClient.Interface.{IMqttClient}
use connected_vehicle_platfo.TelemetryManager.Sample.{Doubles, serialize}
use connected_vehicle_platfo.TelemetryManager.{
  TelemetryManager, generate_sample, send, publish_sample, flush_queue, flush_loop, deliver,
  queue_message,
}

module _ {W : Type 0} (client : IMqttClient W) where
  -- The messages are published in this order, each with success, on the way from `w` to `w'`.
  pub data Sends : List Text → W → W → Type 0 where
    nothing : {w : W} → Sends [] w w
    then_sends :
        {payload : Text} {rest : List Text} {w w' : W}
        → (send client payload w).0 ≡ true
        → Sends rest (send client payload w).1 w'
        → Sends (payload ∷ rest) w w'

  -- What a flush of `queue` from `w` comes to, with answer `ok`, queue `rest` and world `w'`.
  pub data Flushed (queue : List Text) (w : W) : Bool → List Text → W → Type 0 where
    all_sent : {w' : W} → Sends queue w w' → Flushed queue w true [] w'
    one_refused :
        {rest : List Text} (sent : List Text) (lost : Text) (v : W)
        → queue ≡ sent ++ (lost ∷ rest)
        → Sends sent w v
        → (send client lost v).0 ≡ false
        → Flushed queue w false rest (send client lost v).1

  Flushed-cons :
      (payload : Text) (queue : List Text) (w : W) {ok : Bool} {rest : List Text} {w' : W}
      → (send client payload w).0 ≡ true
      → Flushed queue (send client payload w).1 ok rest w'
      → Flushed (payload ∷ queue) w ok rest w'
  Flushed-cons payload queue w accepted (all_sent sends) = all_sent (then_sends accepted sends)
  Flushed-cons payload queue w accepted (one_refused sent lost v split sends refused) =
      one_refused (payload ∷ sent) lost v (ap (◌∷◌ payload) split) (then_sends accepted sends)
        refused

  flush_loop-Flushed :
      (queue : List Text) (w : W)
      → let (ok, (rest, w')) = flush_loop client queue w in Flushed queue w ok rest w'
  unfolding flush_loop
  flush_loop-Flushed [] w = all_sent nothing
  flush_loop-Flushed (payload ∷ queue) w = elim (Bool-cases (send client payload w).0) [
    | inl accepted ↦
        rw accepted (
          Flushed-cons payload queue w accepted
            (flush_loop-Flushed queue (send client payload w).1))
    | inr refused ↦ rw refused (one_refused [] payload w refl nothing refused)
  ]

module _ {W : Type 0} where
  -- On a connected client flushQueue publishes the queued messages from the oldest on and stops at
  -- the first refusal: either it succeeds, all were accepted in order and the queue is empty, or it
  -- fails, the messages before the refused one were accepted in order, those behind it stay queued
  -- in order, and the refused one is in neither part.
  pub flush_queue_outcome :
      (client : IMqttClient W) (m : TelemetryManager) (w : W)
      → client.is_connected w ≡ true
      → let (ok, (m', w')) = flush_queue (some client) (m, w) in
        Flushed client m.pending_messages w ok m'.pending_messages w'
        × (m'.vehicle_id ≡ m.vehicle_id)
  unfolding flush_queue
  flush_queue_outcome client m w up = rw up (flush_loop-Flushed client m.pending_messages w, refl)

  -- What becomes of one payload on its way out.
  abbrev pub IsSent : IMqttClient W → Text → TelemetryManager → W → TelemetryManager × W → Type 0
  IsSent client payload m w s =
      (client.is_connected w ≡ true)
      × ((send client payload w).0 ≡ true)
      × (s ≡ (m, (send client payload w).1))

  abbrev pub IsQueued : IMqttClient W → Text → TelemetryManager → W → TelemetryManager × W → Type 0
  IsQueued client payload m w s =
      ((client.is_connected w ≡ false) ⊎ ((send client payload w).0 ≡ false))
      × (s.0 ≡ record m { pending_messages = m.pending_messages ++ payload ∷ [] })

  deliver_outcome :
      (client : IMqttClient W) (payload : Text) (m : TelemetryManager) (w : W)
      → let (ok, s) = deliver (some client) payload (m, w) in
        (ok ≡ true) × (IsSent client payload m w s ⊎ IsQueued client payload m w s)
  unfolding deliver
  deliver_outcome client payload m w = elim (Bool-cases (client.is_connected w)) [
    | inr down ↦ rw down (refl, inr (inl refl, refl))
    | inl up ↦ rw up (elim (Bool-cases (send client payload w).0) [
      | inl accepted ↦ rw accepted (refl, inl (refl, refl, refl))
      | inr refused ↦ rw refused (refl, inr (inr refl, refl))
    ])
  ]

module _ {W D : Type 0} (platform : Platform W) (doubles : Doubles D) where
  -- The payload that `publish_sample` makes in a world, and the world after it.
  abbrev pub payload_of : TelemetryManager → Action W Text
  payload_of m w =
      let (sample, w') = generate_sample platform doubles m w in (serialize doubles sample, w')

  -- With a client publishSample always answers true. On a connected client that accepts the payload
  -- the sample is sent and the manager stays as it was; otherwise the payload goes to the end of
  -- the queue.
  pub publish_sample_outcome :
      (client : IMqttClient W) (m : TelemetryManager) (w : W)
      → let (payload, w1) = payload_of m w in
        let (ok, s) = publish_sample platform doubles (some client) (m, w) in
        (ok ≡ true) × (IsSent client payload m w1 s ⊎ IsQueued client payload m w1 s)
  unfolding publish_sample
  publish_sample_outcome client m w =
      let (payload, w1) = payload_of m w in deliver_outcome client payload m w1

  -- So it does without a client.
  pub publish_sample-true :
      (client : Option (IMqttClient W)) (s : TelemetryManager × W)
      → (publish_sample platform doubles client s).0 ≡ true
  unfolding publish_sample
  publish_sample-true none (m, w) = refl
  publish_sample-true (some client) (m, w) = (publish_sample_outcome client m w).0

  -- The queue after `publishSample` is the queue before it with at most one message more.
  pub publish_sample_growth :
      (client : Option (IMqttClient W)) (m : TelemetryManager) (w : W)
      → let m' = (publish_sample platform doubles client (m, w)).1.0 in
        (more : List Text) × (m'.pending_messages ≡ m.pending_messages ++ more) × (length more ≤ 1)
  unfolding publish_sample deliver queue_message
  publish_sample_growth none m w = (_, refl, omega arith)
  publish_sample_growth (some client) m w = elim ((publish_sample_outcome client m w).1) [
    | inl (up, ok, e) ↦ (
      [],
      ap (λ (s : TelemetryManager × W). s.0.pending_messages) e
          ∙ sym (append-nil m.pending_messages),
      omega arith,
    )
    | inr (why, e) ↦ (_, ap (λ (r : TelemetryManager). r.pending_messages) e, omega arith)
  ]
