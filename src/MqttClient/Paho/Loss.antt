-- ===== src/MqttClient/Paho/Loss.antt =====
-- src/MqttClient/mqtt_client.cpp: `reconnect` of an `MqttClient` over the Paho backend, after the
-- broker has dropped the connection.
use connected_vehicle_platfo.Prelude.{ℕ, zero, suc, ◌≡◌, Bool, false, none, some, arith}
use connected_vehicle_platfo.MqttClient.Paho.{
  PahoLibrary, PahoMqttBackend, disconnect, is_connected, paho_backend,
}
use connected_vehicle_platfo.MqttClient.{MqttClient}
use connected_vehicle_platfo.MqttClient

module _ {W : Type 0} (paho : PahoLibrary W) where
  open paho use {Client}

  -- The documented answer of the library to `disconnect` on a client that is not connected
  -- (MQTTASYNC_DISCONNECTED): it throws, and the client stays unconnected.
  abbrev pub RefusesToClose : Type 0
  RefusesToClose =
      (client : Client) (w : W)
      → paho.is_connected client w ≡ false
      → ((paho.disconnect client w).0 ≡ none)
        × (paho.is_connected client (paho.disconnect client w).1 ≡ false)

  -- The state of `n` calls of `reconnect`, one after another.
  pub retry : ℕ → MqttClient × (PahoMqttBackend paho × W) → MqttClient × (PahoMqttBackend paho × W)
  retry zero s = s
  retry (suc n) s = retry n (MqttClient.reconnect (paho_backend paho) s).1

  abbrev pub reconnect :
      MqttClient × (PahoMqttBackend paho × W) → Bool × (MqttClient × (PahoMqttBackend paho × W))
  reconnect s = MqttClient.reconnect (paho_backend paho) s

  -- The backend holds a client, and the library knows that it is not connected.
  abbrev pub IsLost : MqttClient × (PahoMqttBackend paho × W) → Type 0
  IsLost (c, (b, w)) =
      (client : Client) × (b.client ≡ some client) × (paho.is_connected client w ≡ false)

  reconnect-IsLost :
      RefusesToClose
      → (s : MqttClient × (PahoMqttBackend paho × W)) → IsLost s
      → ((reconnect s).0 ≡ false) × IsLost (reconnect s).1
  unfolding MqttClient.reconnect disconnect
  reconnect-IsLost refuses (c, (b, w)) (client, has, lost) =
      let (throws, still) = refuses client w lost in
      (ground arith, (client, ground arith, ground arith))

  -- If the Paho library refuses to close a lost connection, then once a connection is lost no
  -- number of calls of reconnect brings it back: each of them fails, and the backend stays
  -- unconnected.
  pub reconnect_never_recovers :
      RefusesToClose
      → (s : MqttClient × (PahoMqttBackend paho × W)) → IsLost s
      → (n : ℕ) → ((reconnect (retry n s)).0 ≡ false) × (is_connected paho (retry n s).1 ≡ false)
  unfolding retry is_connected
  reconnect_never_recovers refuses (c, (b, w)) (client, has, lost) zero =
      ((reconnect-IsLost refuses (c, (b, w)) (client, has, lost)).0, ground arith)
  reconnect_never_recovers refuses s lost (suc n) =
      reconnect_never_recovers refuses (reconnect s).1 (reconnect-IsLost refuses s lost).1 n
