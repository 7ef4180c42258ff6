-- ===== src/Demo/Main/Outcome.antt =====
-- src/main.cpp: how `main` ends.
use connected_vehicle_platfo.Prelude.{
  ◌≡◌, refl, ◌∙◌, ap, ◌⊎◌, inl, inr, false, true, List, Text, codes, ◌++◌, Bool-cases,
}
use connected_vehicle_platfo.Platform.{Platform, beside}
use connected_vehicle_platfo.Sockets.{Sockets}
use connected_vehicle_platfo.TelemetryManager.{Doubles}
use connected_vehicle_platfo.Logger
use connected_vehicle_platfo.Logger.{
  Logger, LogLevel, SourceLocation, time_format, format_line, log, write_line,
}
use connected_vehicle_platfo.SomeipClient.{SomeipClient, disconnect, invalid_socket_fd}
use connected_vehicle_platfo.SomeipClient.Frame.{ByteOrder}
use connected_vehicle_platfo.ConnectivityService
use connected_vehicle_platfo.ConnectivityService.{
  ConnectivityService, Here, stopped, disconnected, start, stop, go_round, sleep_seconds,
}
use connected_vehicle_platfo.ConnectivityService.Startup.{start-Outcome}
use connected_vehicle_platfo.ConnectivityService.Kept.{Drifts, go_round-Keeps}
use connected_vehicle_platfo.ConnectivityService.Shutdown.{EndsDisconnected, stop_outcome}
use connected_vehicle_platfo.Demo.{demo_log_path, demo_run_duration_sec}
use connected_vehicle_platfo.Demo.Main.{
  Ending, exits, terminates, return_code, Shared, demo_parts, prepare, conclude, after_start,
  launch, logger_of, main,
}

-- Logging leaves the fields of the client alone.
pub log-beside :
    {C W : Type 0} (platform : Platform W) (logger : Logger) (level : LogLevel) (message : Text)
    (location : SourceLocation) (c : C) (w : W)
    → (log (beside platform) logger level message location (c, w)).0 ≡ c
unfolding log write_line
log-beside platform logger level message location c w =
    let (time, w1) = platform.local_time time_format w in
    let w2 = platform.write_stdout (format_line time level message location ++ codes "\n") w1 in
    elim (Bool-cases (platform.open_append logger.log_path w2).0) [
      | inl opened ↦ rw opened
      | inr closed ↦ rw closed
    ]

module _ {W D : Type 0} (platform : Platform W) (os : Sockets W) (order : ByteOrder)
    (doubles : Doubles D) (source_file : Text) where
  -- The two ways in which `main` ends.
  abbrev pub Succeeds : Ending × (ConnectivityService (Shared W) × Shared W) → Type 0
  Succeeds (ending, (s, (client, w))) =
      (ending ≡ exits 0)
      × (s.state ≡ stopped)
      × (s.running ≡ false)
      × (s.worker ≡ false)
      × (client.connected ≡ false)
      × (client.socket_fd ≡ invalid_socket_fd)

  abbrev pub Aborts : Ending × (ConnectivityService (Shared W) × Shared W) → Type 0
  Aborts (ending, (s, (client, w))) =
      (ending ≡ terminates) × (s.state ≡ disconnected) × (s.running ≡ false)

  module _ (logger : Logger) where
    abbrev parts : ConnectivityService.Parts (Shared W) D
    parts = demo_parts platform os order doubles source_file logger

    -- A service that `stop` has stopped has closed the client's socket.
    EndsDisconnected-closed :
        (after : Here parts)
        → EndsDisconnected parts after
        → (after.1.0.connected ≡ false) × (after.1.0.socket_fd ≡ invalid_socket_fd)
    unfolding disconnect
    EndsDisconnected-closed (s, (c, w)) ((c0, v), e) =
        let same : c ≡ record c0 { socket_fd = invalid_socket_fd; connected = false } =
          ap (λ (x : Shared W). x.0) e ∙ log-beside platform logger _ _ _ _ _ in
        (ap (λ (x : SomeipClient). x.connected) same, ap (λ (x : SomeipClient). x.socket_fd) same)

    conclude-Succeeds :
        (remaining : List (Here parts → Here parts)) (here : Here parts)
        → Drifts parts remaining
        → here.0.running ≡ true
        → here.0.worker ≡ true
        → Succeeds
            (conclude platform os order doubles source_file logger here (stop parts remaining here))
    unfolding conclude return_code
    conclude-Succeeds remaining here calm runs has_worker =
        let (after, returned, state, running, worker, ends) =
          stop_outcome parts remaining here calm runs has_worker in
        let closed = EndsDisconnected-closed after ends in
        rw returned (refl, state, running, worker, closed.0, closed.1)

    launch_outcome :
        (iterations remaining : List (Here parts → Here parts)) (here : Here parts)
        → Drifts parts iterations
        → Drifts parts remaining
        → here.0.running ≡ false
        → let result =
            launch platform os order doubles source_file logger iterations remaining here in
          (((start parts here).0 ≡ true) × Succeeds result)
          ⊎ (((start parts here).0 ≡ false) × Aborts result)
    unfolding launch after_start return_code
    launch_outcome iterations remaining (s, w) calm calm' idle = elim (start-Outcome parts s w) [
      | inr (runs, same) ↦ cc
      | inl (_, inl (up, started)) ↦
          let kept = go_round-Keeps parts iterations (start parts (s, w)).1 calm in
          let slept =
            sleep_seconds parts demo_run_duration_sec
              (go_round parts iterations (start parts (s, w)).1) in
          rw up (
            inl (
              refl,
              conclude-Succeeds remaining slept calm' (kept.running ∙ started.running)
                  (kept.worker ∙ started.worker),
            ))
      | inl (_, inr (down, failed)) ↦ rw down (inr (refl, (refl, failed.state, failed.running)))
    ]

  -- Where other threads leave running_ and worker_ alone, main ends in one of two ways, whatever
  -- the worker does in the meantime. If start succeeds, the exit code is 0, the service is stopped
  -- without a worker and the SOME/IP client is disconnected with no socket. If start fails, the
  -- process ends by std::terminate, with the service disconnected.
  pub main_outcome :
      (w : W)
      → let logger = logger_of platform os order doubles source_file w in
        let parts = demo_parts platform os order doubles source_file logger in
        (iterations remaining : List (Here parts → Here parts))
        → Drifts parts iterations
        → Drifts parts remaining
        → let result = main platform os order doubles source_file w iterations remaining in
          let started = start parts (
            prepare platform os order doubles source_file
              (Logger.make platform demo_log_path w).1) in
          ((started.0 ≡ true) × Succeeds result) ⊎ ((started.0 ≡ false) × Aborts result)
  unfolding main prepare ConnectivityService.make
  main_outcome w iterations remaining calm calm' =
      launch_outcome (logger_of platform os order doubles source_file w) iterations remaining
        (prepare platform os order doubles source_file (Logger.make platform demo_log_path w).1)
        calm calm' refl
