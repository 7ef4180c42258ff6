-- ===== src/MqttClient.antt =====
-- include/connected_vehicle_platform/mqtt_client.hpp and src/MqttClient/mqtt_client.cpp: the client
-- that the rest of the program talks to, over a backend. The backend over the Paho library is in
-- MqttClient/Paho.antt. Each method holds `mutex_` from its first line to its last, so a call is
-- one step of the client's state; `reconnect` is two such steps, with no other call between them.
pub mod Interface
pub mod Fake
pub mod Paho
pub mod Connection
mod Tests
use connected_vehicle_platfo.Prelude.{
  ℕ, Bool, false, true, ℤ, pos, is_negative, Text, Action, if◌then◌else◌,
}
pub use Interface.{MqttConfig, default_qos, IMqttBackend, IMqttClient}

pub record MqttClient : Type 0 where
  pub config : MqttConfig
  pub connected : Bool

unfoldable pub make : MqttConfig → MqttClient
make config = record { config = config; connected = false }

-- `qos < 0 ? config_.qos : qos`.
abbrev pub effective_qos : MqttConfig → ℤ → ℤ
effective_qos config qos = if is_negative qos then config.qos else qos

module _ {W : Type 0} (backend : IMqttBackend W) where
  unfoldable pub connect : Action (MqttClient × W) Bool
  connect (c, w) =
      if c.connected
      then (true, (c, w))
      else let (ok, w') = backend.connect c.config.broker c.config.client_id w in
        (ok, (record c { connected = ok }, w'))

  unfoldable pub disconnect : Action (MqttClient × W) Bool
  disconnect (c, w) =
      let (ok, w') = backend.disconnect w in (ok, (record c { connected = false }, w'))

  -- `disconnect() && connect()`.
  unfoldable pub reconnect : Action (MqttClient × W) Bool
  unfolding connect disconnect
  reconnect s = let (ok, s') = disconnect s in if ok then connect s' else (false, s')

  unfoldable pub publish : Text → Text → ℤ → Action (MqttClient × W) Bool
  publish topic payload qos (c, w) =
      let (ok, w') = backend.publish topic payload (effective_qos c.config qos) w in
      if c.connected then (ok, (c, w')) else (false, (c, w))

  unfoldable pub subscribe : Text → ℤ → Action (MqttClient × W) Bool
  subscribe topic qos (c, w) =
      let (ok, w') = backend.subscribe topic (effective_qos c.config qos) w in
      if c.connected then (ok, (c, w')) else (false, (c, w))

  -- The flag of the client; the backend is not asked.
  unfoldable pub is_connected : MqttClient × W → Bool
  is_connected (c, w) = c.connected

  -- `MqttClient : public IMqttClient`, with the client's own fields as part of the world.
  abbrev pub mqtt_client : IMqttClient (MqttClient × W)
  mqtt_client = record {
    connect = connect;
    disconnect = disconnect;
    reconnect = reconnect;
    publish = publish;
    subscribe = subscribe;
    is_connected = is_connected;
    config = λ s. s.0.config;
  }
