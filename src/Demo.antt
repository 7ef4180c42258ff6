-- ===== src/Demo.antt =====
-- src/main.cpp: the demonstration, with its authentication backend and the listener that stands for
-- the cloud.
pub mod CloudListener
pub mod Main
pub mod Delivery
pub mod Threads
mod Tests
use connected_vehicle_platfo.Prelude.{
  ℕ, Bool, ◌||◌, [], ℤ, pos, Text, codes, is_empty, Action, if◌then◌else◌,
}
use connected_vehicle_platfo.AuthClient.{AuthRequest, AuthResponse, IAuthBackend}

abbrev pub demo_token_ttl_sec : ℤ
demo_token_ttl_sec = pos 3600

abbrev pub demo_vehicle_secret : Text
demo_vehicle_secret = codes "secret123"

abbrev pub demo_log_path : Text
demo_log_path = codes "logs/connected_vehicle.log"

abbrev pub demo_someip_port : ℕ
demo_someip_port = 41002

abbrev pub demo_run_duration_sec : ℕ
demo_run_duration_sec = 6

-- `DemoAuthBackend::authenticate`.
unfoldable pub demo_authenticate : AuthRequest → AuthResponse
demo_authenticate request =
    if is_empty request.vehicle_id || is_empty request.vehicle_secret
    then record { access_token = []; expires_in = pos 0 }
    else record { access_token = codes "jwt-demo-token"; expires_in = demo_token_ttl_sec }

abbrev pub demo_auth_backend : {W : Type 0} → IAuthBackend W
demo_auth_backend = record { authenticate = λ request w. (demo_authenticate request, w) }
