-- ===== src/ConnectivityService/Ready.antt =====
-- src/ConnectivityService/connectivity_service.cpp: an iteration of `runLoop` whose checks pass.
use connected_vehicle_platfo.Prelude.{◌≡◌, refl, ◌∙◌, false, true, some, is_empty, arith}
use connected_vehicle_platfo.AuthClient.{AuthClient}
use connected_vehicle_platfo.AuthClient
use connected_vehicle_platfo.TelemetryManager.{TelemetryManager, publish_sample}
use connected_vehicle_platfo.ConnectivityService.{
  Parts, Here, sleep_seconds, check_client, check_token, is_down, check_connection, publish_with,
  publish_telemetry, round, publish_interval_sec,
}
use connected_vehicle_platfo.ConnectivityService.Rounds.{publish_step-quiet}

module _ {W D : Type 0} (parts : Parts W D) where
  -- The world after the token's check.
  abbrev pub checked : AuthClient W → W → W
  checked client w = (AuthClient.is_token_valid parts.platform (client, w)).1.1

  is_token_valid-filled :
      (client : AuthClient W) (w : W)
      → (AuthClient.is_token_valid parts.platform (client, w)).0 ≡ true
      → is_empty (AuthClient.is_token_valid parts.platform (client, w)).1.0.access_token ≡ false
  unfolding AuthClient.is_token_valid
  is_token_valid-filled client w valid = ground arith

  check_token-valid :
      (here : Here parts) (client : AuthClient W)
      → here.0.auth_client ≡ some client
      → (AuthClient.is_token_valid parts.platform (client, here.1)).0 ≡ true
      → check_token parts here ≡ (true, (here.0, checked client here.1))
  unfolding check_token check_client
  check_token-valid (s, w) client has valid =
      let filled = is_token_valid-filled client w valid in rw (has, valid, filled) refl

  check_connection-up :
      (here : Here parts)
      → is_down parts parts.mqtt_client here.1 ≡ false
      → check_connection parts here ≡ (true, here)
  unfolding check_connection
  check_connection-up (s, w) up = rw up refl

  -- An iteration with a valid token and a client that is up is publishSample and the pause.
  pub round-ready :
      (here : Here parts) (client : AuthClient W) (manager : TelemetryManager)
      → here.0.auth_client ≡ some client
      → (AuthClient.is_token_valid parts.platform (client, here.1)).0 ≡ true
      → is_down parts parts.mqtt_client (checked client here.1) ≡ false
      → here.0.telemetry_manager ≡ some manager
      → let (manager', w') =
          (publish_sample parts.platform parts.doubles parts.manager_client
            (manager, checked client here.1)).1 in
        round parts here
        ≡ sleep_seconds parts publish_interval_sec
            (record here.0 { telemetry_manager = some manager' }, w')
  unfolding round publish_telemetry publish_with
  round-ready here client manager has valid up managed =
      rw (check_token-valid here client has valid) (
        rw (check_connection-up (here.0, checked client here.1) up) (
          publish_step-quiet parts (here.0, checked client here.1) manager managed
          ∙ rw managed refl))
