-- ===== src/MqttClient/Fake.antt =====
-- A client, a platform and numbers for examples: the world says whether the client is connected and
-- what was published; it accepts every payload that it is given while it is connected.
use connected_vehicle_platfo.Prelude.{
  ℕ, Bool, false, true, List, [], ◌∷◌, ◌++◌, pos, Text, codes, show_ℕ,
}
use connected_vehicle_platfo.Platform.{Platform}
use connected_vehicle_platfo.MqttClient.Interface.{MqttConfig, IMqttClient}
use connected_vehicle_platfo.TelemetryManager.Sample.{Doubles}

abbrev pub fake_config : MqttConfig
fake_config = record {
  broker = codes "ssl://localhost:8883";
  client_id = codes "ECU_001";
  telemetry_topic = codes "vehicle/ECU_001/telemetry";
  command_topic = codes "vehicle/ECU_001/commands";
  qos = pos 1;
}

pub record Broker : Type 0 where
  pub up : Bool
  pub sent : List Text

abbrev pub fake_client : IMqttClient Broker
fake_client = record {
  connect = λ w. (true, record w { up = true });
  disconnect = λ w. (true, record w { up = false });
  reconnect = λ w. (true, record w { up = true });
  publish = λ topic payload qos w. (w.up, record w { sent = w.sent ++ payload ∷ [] });
  subscribe = λ topic qos w. (true, w);
  is_connected = λ w. w.up;
  config = λ w. fake_config;
}

abbrev pub fake_platform : Platform Broker
fake_platform = record {
  steady_now = λ w. (pos 0, w);
  sleep_for = λ ms w. w;
  local_time = λ format w. (codes "2026-01-01", w);
  write_stdout = λ text w. w;
  write_stderr = λ text w. w;
  create_directories = λ path w. w;
  open_append = λ path w. (false, w);
  write_file = λ path text w. w;
}

abbrev pub fake_doubles : Doubles ℕ
fake_doubles = record { literal = λ n k. n; print = show_ℕ }
