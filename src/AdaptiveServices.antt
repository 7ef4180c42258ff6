-- ===== src/AdaptiveServices.antt =====
-- The small services of the adaptive_autosar_services library: src/mqtt/mqtt_gateway.cpp,
-- src/services/diagnostics_service.cpp and src/services/vehicle_signal_service.cpp, with their
-- headers under include/connected_vehicle_platform. None of them changes a state.
mod Tests
use connected_vehicle_platfo.Prelude.{ℕ, Bool, not, ◌&&◌, false, [], Text, codes, is_empty}
use connected_vehicle_platfo.TelemetryManager.{Doubles}

pub record MqttGateway : Type 0 where
  pub topic : Text

abbrev pub default_topic : Text
default_topic = codes "vehicle/signals"

abbrev pub make_gateway : Text → MqttGateway
make_gateway topic = record { topic = topic }

pub gateway_publish : MqttGateway → Text → Bool
gateway_publish gateway payload = not (is_empty payload)

pub gateway_subscribe : MqttGateway → Text → Bool
gateway_subscribe gateway topic = not (is_empty topic)

pub record DiagnosticReport : Type 0 where
  pub code : Text
  pub severity : Text
  pub detail : Text

pub publish_diagnostic : DiagnosticReport → Bool
publish_diagnostic report = not (is_empty report.code) && not (is_empty report.severity)

pub record VehicleSignalSnapshot (D : Type 0) : Type 0 where
  pub speed : ℕ
  pub battery_voltage : D

pub read_signal_snapshot : {D : Type 0} → Doubles D → VehicleSignalSnapshot D
read_signal_snapshot doubles = record { speed = 0; battery_voltage = doubles.literal 124 1 }
