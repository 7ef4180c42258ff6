-- ===== src/MqttClient/Tests.antt =====
-- src/MqttClient/mqtt_client.cpp at concrete inputs: over a fake backend, as in
-- tests/connectivity_tests.cpp, and over a small library whose world is the connection's state.
use connected_vehicle_platfo.Prelude.{
  ◌≡◌, refl, Bool, false, true, none, some, [], ◌∷◌, pos, negsuc, codes,
}
use connected_vehicle_platfo.MqttClient.Interface.{MqttConfig, IMqttBackend}
use connected_vehicle_platfo.MqttClient.{
  MqttClient, make, connect, reconnect, is_connected, effective_qos,
}
use connected_vehicle_platfo.MqttClient.Connection.{
  connects, publishes, is_connected-run, run, known,
}
use connected_vehicle_platfo.MqttClient.Paho
use connected_vehicle_platfo.MqttClient.Paho.{PahoLibrary, PahoMqttBackend}
use connected_vehicle_platfo.MqttClient.Paho.Loss.{RefusesToClose, reconnect_never_recovers, retry}

abbrev config : MqttConfig
config = record {
  broker = codes "ssl://localhost:8883";
  client_id = codes "ECU_001";
  telemetry_topic = codes "vehicle/ECU_001/telemetry";
  command_topic = codes "vehicle/ECU_001/commands";
  qos = pos 1;
}

-- FakeMqttBackend, with the world as its `connected_`.
abbrev fake : IMqttBackend Bool
fake = record {
  connect = λ broker client_id w. (true, true);
  disconnect = λ w. (true, false);
  publish = λ topic payload qos w. (false, w);
  subscribe = λ topic qos w. (true, w);
  is_connected = λ w. w;
}

abbrev offline : MqttClient
offline = record { config = config; connected = false }

connection_test :
    (connect fake (make config, false)).1 ≡ (record offline { connected = true }, true)
unfolding connect make
connection_test = refl

default_qos_test : effective_qos config (negsuc 0) ≡ pos 1
default_qos_test = refl

is_connected-run_example :
    let (answers, s) =
      run fake
        ((connects, λ w. w) ∷ (publishes (codes "t") (codes "p") (pos 1), λ w. false) ∷ [])
        (offline, false) in
    is_connected fake s ≡ known (is_connected fake (offline, false)) answers
is_connected-run_example =
    is_connected-run fake
      ((connects, λ w. w) ∷ (publishes (codes "t") (codes "p") (pos 1), λ w. false) ∷ [])
      (offline, false)

-- A library whose world says whether the connection stands; closing a lost one throws.
abbrev library : PahoLibrary Bool
library = record {
  Client = Unit {0};
  Token = Unit {0};
  create = λ broker client_id w. (some tt, w);
  destroy = λ client w. w;
  connect = λ client options w. (some tt, true);
  disconnect = λ client w. elim w [ true ↦ (some tt, false) | false ↦ (none, false) ];
  publish = λ client topic payload qos retained w. (some tt, w);
  subscribe = λ client topic qos w. (some tt, w);
  wait_for = λ tok seconds w. (some true, w);
  return_code = λ tok w. pos 0;
  is_connected = λ client w. w;
  success = pos 0;
}

library_refuses : RefusesToClose library
library_refuses client w lost = rw lost (refl, refl)

abbrev dropped : MqttClient × (PahoMqttBackend library × Bool)
dropped =
    (record offline { connected = true }, (record { client = some tt; connected = true }, false))

reconnect_never_recovers_example :
    ((reconnect (Paho.paho_backend library) (retry library 2 dropped)).0 ≡ false)
    × (Paho.is_connected library (retry library 2 dropped).1 ≡ false)
reconnect_never_recovers_example =
    reconnect_never_recovers library library_refuses dropped (tt, refl, refl) 2
