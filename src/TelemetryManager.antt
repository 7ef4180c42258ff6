-- ===== src/TelemetryManager.antt =====
-- include/connected_vehicle_platform/telemetry_manager.hpp and
-- src/TelemetryManager/telemetry_manager.cpp: samples are published, or wait in a queue. The mutex
-- guards the queue: `queueMessage`, `flushQueue` and `pendingCount` are one step each.
pub mod Sample
pub mod Queue
pub mod Threads
mod Tests
use connected_vehicle_platfo.Prelude.{
  ℕ, Bool, false, true, Option, none, some, List, [], ◌∷◌, ◌++◌, pos, Text, codes, length, Action,
  if◌then◌else◌,
}
use connected_vehicle_platfo.Platform.{Platform}
use connected_vehicle_platfo.MqttClient.Interface.{IMqttClient}
pub use Sample.{Doubles, TelemetrySample}
use Sample.{serialize, sample_speed, sample_rpm, sample_battery, sample_fuel}

pub record TelemetryManager : Type 0 where
  pub vehicle_id : Text
  pub pending_messages : List Text

unfoldable pub make : Text → TelemetryManager
make vehicle_id = record { vehicle_id = vehicle_id; pending_messages = [] }

abbrev pub timestamp_format : Text
timestamp_format = codes "%Y-%m-%dT%H:%M:%S"

-- `push_back`; the answer is always true.
unfoldable pub queue_message : {W : Type 0} → Text → Action (TelemetryManager × W) Bool
queue_message message (m, w) =
    (true, (record m { pending_messages = m.pending_messages ++ message ∷ [] }, w))

abbrev pub pending_count : TelemetryManager → ℕ
pending_count m = length m.pending_messages

-- The publication of a payload on the configured topic, with quality of service 1.
unfoldable pub send : {W : Type 0} → IMqttClient W → Text → Action W Bool
send client payload w = client.publish (client.config w).telemetry_topic payload (pos 1) w

-- The loop of `flushQueue`, over the queue: a message is popped before it is published.
flush_loop : {W : Type 0} → IMqttClient W → List Text → W → Bool × (List Text × W)
unfolding send
flush_loop client [] w = (true, ([], w))
flush_loop client (payload ∷ rest) w =
    let (ok, w') = send client payload w in
    let again = flush_loop client rest w' in if ok then again else (false, (rest, w'))

-- A payload is published, or else queued.
deliver : {W : Type 0} → Option (IMqttClient W) → Text → Action (TelemetryManager × W) Bool
unfolding queue_message send
deliver none payload s = queue_message payload s
deliver (some client) payload (m, w) =
    let (ok, w') = send client payload w in
    if client.is_connected w
    then (if ok then (true, (m, w')) else queue_message payload (m, w'))
    else queue_message payload (m, w)

flush : {W : Type 0} → Option (IMqttClient W) → Action (TelemetryManager × W) Bool
unfolding flush_loop
flush none s = (false, s)
flush (some client) (m, w) =
    let (ok, (rest, w')) = flush_loop client m.pending_messages w in
    if client.is_connected w
    then (ok, (record m { pending_messages = rest }, w'))
    else (false, (m, w))

module _ {W D : Type 0} (platform : Platform W) (doubles : Doubles D) where
  open platform use {local_time}

  unfoldable pub generate_sample : TelemetryManager → Action W (TelemetrySample D)
  generate_sample m w =
      let (timestamp, w') = local_time timestamp_format w in
      (
        record {
          vehicle_id = m.vehicle_id;
          timestamp = timestamp;
          speed = sample_speed doubles;
          rpm = sample_rpm doubles;
          battery = sample_battery doubles;
          fuel = sample_fuel doubles;
        },
        w',
      )

  unfoldable pub publish_sample : Option (IMqttClient W) → Action (TelemetryManager × W) Bool
  unfolding deliver generate_sample
  publish_sample mqtt_client (m, w) =
      let (sample, w') = generate_sample m w in
      deliver mqtt_client (serialize doubles sample) (m, w')

unfoldable pub flush_queue :
    {W : Type 0} → Option (IMqttClient W) → Action (TelemetryManager × W) Bool
unfolding flush
flush_queue mqtt_client s = flush mqtt_client s
