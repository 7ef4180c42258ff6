-- ===== src/TelemetryManager/Sample.antt =====
-- include/connected_vehicle_platform/telemetry_manager.hpp and
-- src/TelemetryManager/telemetry_manager.cpp: a sample and its JSON text. The type `double`, its
-- decimal literals and `<<` for it are parameters.
pub mod Json
use connected_vehicle_platfo.Prelude.{ℕ, ◌++◌, Text, codes}

-- `literal n k` is the double nearest to n / 10^k.
pub record Doubles (D : Type 0) : Type 0 where
  pub literal : ℕ → ℕ → D
  pub print : D → Text

pub record TelemetrySample (D : Type 0) : Type 0 where
  pub vehicle_id : Text
  pub timestamp : Text
  pub speed : D
  pub rpm : D
  pub battery : D
  pub fuel : D

module _ {D : Type 0} (doubles : Doubles D) where
  open doubles use {literal, print}

  abbrev pub default_telemetry_value : D
  default_telemetry_value = literal 0 1

  abbrev pub sample_speed : D
  sample_speed = literal 800 1

  abbrev pub sample_rpm : D
  sample_rpm = literal 25000 1

  abbrev pub sample_battery : D
  sample_battery = literal 126 1

  abbrev pub sample_fuel : D
  sample_fuel = literal 700 1

  -- From the closing quote of the timestamp on.
  pub measurements : TelemetrySample D → Text
  measurements s =
      codes "\",\"speed\":"
      ++ (print s.speed
          ++ (codes ",\"rpm\":"
              ++ (print s.rpm
                  ++ (codes ",\"battery\":"
                      ++ (print s.battery
                          ++ (codes ",\"fuel\":" ++ (print s.fuel ++ codes "}")))))))

  unfoldable pub serialize : TelemetrySample D → Text
  unfolding measurements
  serialize s =
      codes "{\"vehicle_id\":\""
      ++ (s.vehicle_id ++ (codes "\",\"timestamp\":\"" ++ (s.timestamp ++ measurements s)))
