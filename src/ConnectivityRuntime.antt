-- ===== src/ConnectivityRuntime.antt =====
-- include/connected_vehicle_platform/connectivity_runtime.hpp and
-- src/connectivity/connectivity_runtime.cpp: a connection that is a flag.
pub mod History
mod Tests
use connected_vehicle_platfo.Prelude.{ℕ, Bool, true, false, not, Text, codes, is_empty}

pub record ConnectivityConfig : Type 0 where
  pub broker_host : Text
  pub broker_port : ℕ
  pub client_id : Text

abbrev pub default_config : ConnectivityConfig
default_config = record {
  broker_host = codes "localhost";
  broker_port = 1883;
  client_id = codes "cvp-client";
}

pub record ConnectivityRuntime : Type 0 where
  pub config : ConnectivityConfig
  pub connected : Bool

pub make : ConnectivityConfig → ConnectivityRuntime
make config = record { config = config; connected = false }

pub connect : ConnectivityRuntime → Bool × ConnectivityRuntime
connect r = let ok = not (is_empty r.config.broker_host) in (ok, record r { connected = ok })

pub disconnect : ConnectivityRuntime → Bool × ConnectivityRuntime
disconnect r = (true, record r { connected = false })

abbrev pub is_connected : ConnectivityRuntime → Bool
is_connected r = r.connected
