-- ===== src/TelemetryManager/Tests.antt =====
-- src/TelemetryManager/telemetry_manager.cpp at concrete inputs, over a client that accepts every
-- payload while it is connected.
use connected_vehicle_platfo.Prelude.{ℕ, ◌≡◌, ◌⊎◌, refl, false, true, some, [], ◌∷◌, show_ℕ, codes}
use connected_vehicle_platfo.MqttClient.Fake.{Broker, fake_client, fake_platform, fake_doubles}
use connected_vehicle_platfo.TelemetryManager.{
  TelemetryManager, TelemetrySample, publish_sample, flush_queue,
}
use connected_vehicle_platfo.TelemetryManager.Sample.{serialize}
use connected_vehicle_platfo.TelemetryManager.Sample.Json.{
  string, number, all_plain, all_numeric, read_object, read-serialize,
}
use connected_vehicle_platfo.TelemetryManager.Queue.{
  Flushed, IsSent, IsQueued, payload_of, flush_queue_outcome, publish_sample_outcome,
}

abbrev online : Broker
online = record { up = true; sent = [] }

abbrev offline : Broker
offline = record { up = false; sent = [] }

abbrev manager : TelemetryManager
manager = record {
  vehicle_id = codes "ECU_001";
  pending_messages = codes "first" ∷ codes "second" ∷ [];
}

flush_test : flush_queue (some fake_client) (manager, online) ≡ (
  true,
  (
    record manager { pending_messages = [] },
    record online { sent = codes "first" ∷ codes "second" ∷ [] },
  ),
)
unfolding flush_queue
flush_test = refl

flush_queue_outcome_example :
    let (ok, (m', w')) = flush_queue (some fake_client) (manager, online) in
    Flushed fake_client manager.pending_messages online ok m'.pending_messages w'
    × (m'.vehicle_id ≡ manager.vehicle_id)
flush_queue_outcome_example = flush_queue_outcome fake_client manager online refl

publish_sample_outcome_example :
    let (payload, w1) = payload_of fake_platform fake_doubles manager online in
    let (ok, s) = publish_sample fake_platform fake_doubles (some fake_client) (manager, online) in
    (ok ≡ true)
    × (IsSent fake_client payload manager w1 s ⊎ IsQueued fake_client payload manager w1 s)
publish_sample_outcome_example =
    publish_sample_outcome fake_platform fake_doubles fake_client manager online

abbrev sample : TelemetrySample ℕ
sample = record {
  vehicle_id = codes "ECU_001";
  timestamp = codes "2026-01-01T00:00:00";
  speed = 80;
  rpm = 2500;
  battery = 12;
  fuel = 70;
}

read-serialize_example :
    read_object 6 (serialize fake_doubles sample)
    ≡ some (
        (codes "vehicle_id", string (codes "ECU_001"))
        ∷ (codes "timestamp", string (codes "2026-01-01T00:00:00"))
        ∷ (codes "speed", number (codes "80"))
        ∷ (codes "rpm", number (codes "2500"))
        ∷ (codes "battery", number (codes "12"))
        ∷ (codes "fuel", number (codes "70"))
        ∷ [])
unfolding all_plain all_numeric show_ℕ
read-serialize_example = read-serialize fake_doubles sample (record {
  vehicle_id = refl;
  timestamp = refl;
  speed = refl;
  rpm = refl;
  battery = refl;
  fuel = refl;
})
