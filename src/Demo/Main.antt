-- ===== src/Demo/Main.antt =====
-- src/main.cpp: `main` builds the service over the SOME/IP client, starts it, waits and stops it. The
-- listener's thread runs beside it; what it does is, from here, part of what the socket calls and
-- the clock do to the world.
pub mod Outcome
pub mod Started
use connected_vehicle_platfo.Prelude.{
  ℕ, Bool, false, true, Option, none, some, List, [], ◌∷◌, Text, codes, Action, if◌then◌else◌,
}
use connected_vehicle_platfo.Platform.{Platform, beside}
use connected_vehicle_platfo.Sockets.{Sockets}
use connected_vehicle_platfo.AuthClient
use connected_vehicle_platfo.TelemetryManager
use connected_vehicle_platfo.TelemetryManager.{Doubles}
use connected_vehicle_platfo.Logger
use connected_vehicle_platfo.Logger.{Logger}
use connected_vehicle_platfo.SomeipClient
use connected_vehicle_platfo.SomeipClient.{
  SomeipClient, SomeipConfig, default_config, someip_client,
}
use connected_vehicle_platfo.SomeipClient.Frame.{ByteOrder}
use connected_vehicle_platfo.ConnectivityService
use connected_vehicle_platfo.ConnectivityService.{
  ConnectivityService, Parts, Here, start, stop, go_round, sleep_seconds,
}
use connected_vehicle_platfo.Demo.{
  demo_auth_backend, demo_log_path, demo_vehicle_secret, demo_someip_port, demo_run_duration_sec,
}

abbrev pub demo_config : SomeipConfig
demo_config = record default_config { port = demo_someip_port }

-- How the process ends: with an exit code, or by `std::terminate`.
pub data Ending : Type 0 where
  exits : ℕ → Ending
  terminates : Ending

-- `return code;` in `main`. It destroys `cloud_listener`; destroying a thread that can be joined
-- calls `std::terminate`.
return_code : ℕ → (joinable : Bool) → Ending
return_code code joinable = if joinable then terminates else exits code

-- The world with the fields of the SOME/IP client in it.
abbrev pub Shared : Type 0 → Type 0
Shared W = SomeipClient × W

module _ {W D : Type 0} (platform : Platform W) (os : Sockets W) (order : ByteOrder)
    (doubles : Doubles D) (source_file : Text) where
  abbrev pub demo_parts : Logger → Parts (Shared W) D
  demo_parts logger = record {
    platform = beside platform;
    doubles = doubles;
    mqtt_client = some (someip_client os order);
    manager_client = some (someip_client os order);
    logger = logger;
    source_file = source_file;
  }

  -- The objects that `main` makes after the logger.
  unfoldable pub prepare : W → ConnectivityService (Shared W) × Shared W
  prepare w =
      let (auth_client, shared) =
        AuthClient.make (beside platform) (some demo_auth_backend) demo_config.client_id
          demo_vehicle_secret (SomeipClient.make demo_config, w) in
      (
        ConnectivityService.make (some auth_client)
            (some (TelemetryManager.make demo_config.client_id)),
        shared,
      )

  module _ (logger : Logger) where
    abbrev pub Now : Type 0
    Now = Here (demo_parts logger)

    -- After `stop`: an exception leaves `main`; else the listener is joined.
    conclude : Now → Option (Bool × Now) → Ending × Now
    conclude here none = (terminates, here)
    conclude here (some (ok, after)) = (return_code 0 false, after)

    after_start : List (Now → Now) → List (Now → Now) → Bool × Now → Ending × Now
    after_start iterations remaining (started, here) =
        let (s, (client, w)) = here in
        let slept =
          sleep_seconds (demo_parts logger) demo_run_duration_sec
            (go_round (demo_parts logger) iterations here) in
        if started then conclude slept (stop (demo_parts logger) remaining slept) else (
          return_code 1 true,
          (
            s,
            (
              client,
              platform.write_stderr (codes "Failed to initialize the connectivity service.\n") w,
            ),
          ),
        )

    -- `main` from the service's start on. `iterations` are those of the worker while `main` sleeps, and
    -- `remaining` those before `stop` has joined it.
    pub launch : List (Now → Now) → List (Now → Now) → Now → Ending × Now
    launch iterations remaining here =
        after_start iterations remaining (start (demo_parts logger) here)

  abbrev pub logger_of : W → Logger
  logger_of w = (Logger.make platform demo_log_path w).0

  -- The whole of `main`.
  pub main :
      (w : W)
      → List (Now (logger_of w) → Now (logger_of w))
      → List (Now (logger_of w) → Now (logger_of w))
      → Ending × Now (logger_of w)
  main w iterations remaining =
      launch (logger_of w) iterations remaining (prepare (Logger.make platform demo_log_path w).1)
