-- ===== src/ConnectivityService.antt =====
-- include/connected_vehicle_platform/connectivity_service.hpp and
-- src/ConnectivityService/connectivity_service.cpp: the service that authenticates, connects and
-- publishes. This file has the fields and what one thread does at a time: `start`, `stop` and
-- `publishTelemetry` on the caller's side, and the iterations of `runLoop` on the worker's side.
pub mod Startup
pub mod Rounds
pub mod Ready
pub mod Connected
pub mod Kept
pub mod Early
pub mod Shutdown
pub mod Backlog
pub mod Threads
mod Tests
use connected_vehicle_platfo.Prelude.{
  ℕ, ◌*◌, Bool, false, true, not, ◌&&◌, ◌||◌, Option, none, some, List, [], ◌∷◌, Text, codes,
  is_empty, Action, if◌then◌else◌,
}
use connected_vehicle_platfo.Platform.{Platform}
use connected_vehicle_platfo.AuthClient
use connected_vehicle_platfo.AuthClient.{AuthClient}
use connected_vehicle_platfo.MqttClient.Interface.{IMqttClient}
use connected_vehicle_platfo.TelemetryManager.{TelemetryManager, Doubles, publish_sample}
use connected_vehicle_platfo.Logger.{
  Logger, SourceLocation, LogLevel, log, log_info, log_warning, log_error,
}

abbrev pub reconnect_delay_sec : ℕ
reconnect_delay_sec = 2

abbrev pub publish_interval_sec : ℕ
publish_interval_sec = 5

pub data ServiceState : Type 0 where
  starting authenticating connected publishing disconnected reconnecting stopped : ServiceState

-- Null pointers are `none`. `worker` says whether `worker_` is a thread that can be joined.
pub record ConnectivityService (W : Type 0) : Type 0 where
  pub auth_client : Option (AuthClient W)
  pub telemetry_manager : Option TelemetryManager
  pub state : ServiceState
  pub running : Bool
  pub worker : Bool

unfoldable pub make :
    {W : Type 0} → Option (AuthClient W) → Option TelemetryManager → ConnectivityService W
make auth_client telemetry_manager = record {
  auth_client = auth_client;
  telemetry_manager = telemetry_manager;
  state = stopped;
  running = false;
  worker = false;
}

-- What a service is built with beside its own fields. The telemetry manager has a client of its
-- own, which in src/main.cpp is the same object; `source_file` is what the compiler gives for
-- `std::source_location::file_name`.
pub record Parts (W D : Type 0) : Type 0 where
  pub platform : Platform W
  pub doubles : Doubles D
  pub mqtt_client : Option (IMqttClient W)
  pub manager_client : Option (IMqttClient W)
  pub logger : Logger
  pub source_file : Text

module _ {W D : Type 0} (parts : Parts W D) where
  open parts use {platform, doubles, mqtt_client, manager_client, logger, source_file}

  -- The service and the world, between two lines of the source.
  abbrev pub Here : Type 0
  Here = ConnectivityService W × W

  abbrev pub set_state : ServiceState → Here → Here
  set_state state (s, w) = (record s { state = state }, w)

  abbrev pub at_line : ℕ → SourceLocation
  at_line line = record { file_name = source_file; line = line }

  abbrev pub info : ℕ → Text → Here → Here
  info line message (s, w) = (s, log_info platform logger message (at_line line) w)

  abbrev pub warning : ℕ → Text → Here → Here
  warning line message (s, w) = (s, log_warning platform logger message (at_line line) w)

  abbrev pub error : ℕ → Text → Here → Here
  error line message (s, w) = (s, log_error platform logger message (at_line line) w)

  abbrev pub sleep_seconds : ℕ → Here → Here
  sleep_seconds n (s, w) = (s, platform.sleep_for (n * 1000) w)

  -- `auth_client_ && auth_client_->authenticate()`.
  unfoldable pub authenticate : Option (AuthClient W) → Action Here Bool
  authenticate none here = (false, here)
  authenticate (some client) (s, w) =
      let (ok, (client', w')) = AuthClient.authenticate platform (client, w) in
      (ok, (record s { auth_client = some client' }, w'))

  -- `mqtt_client_ && mqtt_client_->connect()`.
  unfoldable pub connect : Option (IMqttClient W) → Action Here Bool
  connect none here = (false, here)
  connect (some client) (s, w) = let (ok, w') = client.connect w in (ok, (s, w'))

  -- The two early returns of `start`.
  unfoldable pub give_up : ℕ → Text → Action Here Bool
  give_up line message here =
      let (s, w) = set_state disconnected (error line message here) in
      (false, (record s { running = false }, w))

  -- From the connection on. `meanwhile` is what the worker does between the assignment to `worker_`,
  -- which makes its thread, and the store of Publishing.
  unfoldable pub start_transport : (Here → Here) → Action Here Bool
  start_transport meanwhile here =
      let (ok, here1) =
        connect mqtt_client
          (info 39 (codes "Authentication succeeded") (set_state authenticating here)) in
      let (s, w) = info 49 (codes "Cloud transport established") (set_state connected here1) in
      if ok
      then (true, set_state publishing (meanwhile (record s { worker = true }, w)))
      else give_up 42 (codes "MQTT connection failed") here1

  unfoldable pub start_session : (Here → Here) → Action Here Bool
  start_session meanwhile (s, w) =
      let (ok, here1) =
        authenticate s.auth_client
          (info 29 (codes "Starting connectivity service") (set_state starting (s, w))) in
      if ok
      then start_transport meanwhile here1
      else give_up 32 (codes "Authentication failed") here1

  unfoldable pub start_with : (Here → Here) → Action Here Bool
  start_with meanwhile (s, w) =
      if s.running then (true, (s, w)) else start_session meanwhile (record s { running = true }, w)

  -- `start` where the worker comes to its loop only after the store of Publishing.
  unfoldable pub start : Action Here Bool
  unfolding start_with
  start here = start_with (λ now. now) here

  publish_with : Option TelemetryManager → Action Here Bool
  publish_with none here = (false, here)
  publish_with (some manager) (s, w) =
      let (ok, (manager', w')) = publish_sample platform doubles manager_client (manager, w) in
      (ok, (record s { telemetry_manager = some manager' }, w'))

  pub publish_telemetry : Action Here Bool
  publish_telemetry (s, w) = publish_with s.telemetry_manager (s, w)

  -- The body of the first `if` of `runLoop`. The answer says whether the iteration goes on.
  refresh : AuthClient W → Action Here Bool
  refresh client here =
      let (s, w) =
        warning 88 (codes "Token is empty or invalid; attempting to refresh token")
          (set_state authenticating here) in
      let (ok, (client', w')) = AuthClient.refresh_token platform (client, w) in
      let here' : Here = (record s { auth_client = some client' }, w') in
      if ok && not (is_empty client'.access_token)
      then (true, set_state publishing (info 90 (codes "Token refreshed successfully") here'))
      else (
        false,
        sleep_seconds reconnect_delay_sec
            (set_state disconnected (error 93 (codes "Token refresh failed; retrying") here')),
      )

  check_client : Option (AuthClient W) → Action Here Bool
  check_client none here = (true, here)
  check_client (some client) (s, w) =
      let (valid, (client', w')) = AuthClient.is_token_valid platform (client, w) in
      if not valid || is_empty client'.access_token
      then refresh client' (s, w')
      else (true, (s, w'))

  check_token : Action Here Bool
  check_token (s, w) = check_client s.auth_client (s, w)

  -- `!mqtt_client_ || !mqtt_client_->isConnected()`.
  abbrev pub is_down : Option (IMqttClient W) → W → Bool
  is_down none w = true
  is_down (some client) w = not (client.is_connected w)

  reconnect : Option (IMqttClient W) → Action Here Bool
  reconnect none here = (false, here)
  reconnect (some client) (s, w) = let (ok, w') = client.reconnect w in (ok, (s, w'))

  -- The second `if` of `runLoop`.
  check_connection : Action Here Bool
  check_connection (s, w) =
      let (ok, here') = reconnect mqtt_client (
        warning 102 (codes "Connection lost; attempting reconnect")
          (set_state reconnecting (s, w))) in
      if is_down mqtt_client w
      then (if ok
          then (true, info 105 (codes "Reconnected successfully") (set_state connected here'))
          else (false, sleep_seconds reconnect_delay_sec (set_state disconnected here')))
      else (true, (s, w))

  pub publish_step : Here → Here
  publish_step here =
      let (ok, here') = publish_telemetry here in
      sleep_seconds publish_interval_sec
        (if ok then here' else warning 114 (codes "Telemetry publish queued for later") here')

  -- One iteration of the `while` loop.
  pub round : Here → Here
  round here =
      let (authorised, here1) = check_token here in
      let (up, here2) = check_connection here1 in
      if authorised then (if up then publish_step here2 else here2) else here1

  -- Iterations of the loop, with what other threads change before each.
  pub go_round : List (Here → Here) → Here → Here
  go_round [] here = here
  go_round (drift ∷ rest) here = go_round rest (round (drift here))

  -- What follows the loop.
  finish : Option (IMqttClient W) → Here → Here
  finish none here = info 123 (codes "Connectivity service loop stopped") here
  finish (some client) (s, w) =
      info 123 (codes "Connectivity service loop stopped") (s, (client.disconnect w).1)

  -- `runLoop`, with one entry for each iteration that starts before the stop request is seen: what
  -- other threads and the environment change before that iteration.
  pub run_loop : List (Here → Here) → Here → Here
  run_loop [] here = finish mqtt_client here
  run_loop (drift ∷ rest) here = run_loop rest (round (drift here))

  -- `worker_.request_stop(); worker_.join()` and the rest of `stop`: `remaining` is what the worker
  -- still does until it has seen the request. `none` is the exception of `join` without a thread.
  join_worker : Bool → List (Here → Here) → Here → Option (Bool × Here)
  join_worker false remaining here = none
  join_worker true remaining here =
      let (s, w) = run_loop remaining here in
      some (true, set_state stopped (record s { worker = false }, w))

  pub stop : List (Here → Here) → Here → Option (Bool × Here)
  stop remaining (s, w) =
      if s.running
      then join_worker s.worker remaining
          (info 61 (codes "Stopping connectivity service") (record s { running = false }, w))
      else some (true, (s, w))
