-- ===== src/MqttClient/Interface.antt =====
-- include/connected_vehicle_platform/mqtt_client.hpp: the configuration and the two interfaces. An
-- object behind an interface keeps its fields in the world `W`.
use connected_vehicle_platfo.Prelude.{Bool, ℤ, pos, Text, Action}

abbrev pub default_qos : ℤ
default_qos = pos 1

pub record MqttConfig : Type 0 where
  pub broker : Text
  pub client_id : Text
  pub telemetry_topic : Text
  pub command_topic : Text
  pub qos : ℤ

pub record IMqttBackend (W : Type 0) : Type 0 where
  pub connect : Text → Text → Action W Bool
  pub disconnect : Action W Bool
  pub publish : Text → Text → ℤ → Action W Bool
  pub subscribe : Text → ℤ → Action W Bool
  pub is_connected : W → Bool

pub record IMqttClient (W : Type 0) : Type 0 where
  pub connect : Action W Bool
  pub disconnect : Action W Bool
  pub reconnect : Action W Bool
  pub publish : Text → Text → ℤ → Action W Bool
  pub subscribe : Text → ℤ → Action W Bool
  pub is_connected : W → Bool
  pub config : W → MqttConfig
