-- ===== src/Demo/Delivery/Tests.antt =====
-- src/main.cpp: a connection at concrete inputs, from the client to the listener.
use connected_vehicle_platfo.Prelude.{
  ◌≡◌, refl, ◌⊎◌, true, false, [], pos, Text, codes, length, take, drop, min, ℕ, List, show_ℕ, Bool,
  ◌∷◌, ◌+ℤ◌, scale, to_int64, some, ◌++◌, arith,
}
use connected_vehicle_platfo.Platform.{Platform}
use connected_vehicle_platfo.Sockets.{Sockets}
use connected_vehicle_platfo.SomeipClient
use connected_vehicle_platfo.SomeipClient.{SomeipClient, publish, connect, is_connected}
use connected_vehicle_platfo.MqttClient.Fake.{fake_doubles}
use connected_vehicle_platfo.SomeipClient.Frame.{big, frame_of}
use connected_vehicle_platfo.AuthClient
use connected_vehicle_platfo.AuthClient.{AuthClient}
use connected_vehicle_platfo.Logger.{Logger, log}
use connected_vehicle_platfo.ConnectivityService
use connected_vehicle_platfo.ConnectivityService.{Parts, Here, start, round}
use connected_vehicle_platfo.ConnectivityService.Ready.{checked}
use connected_vehicle_platfo.Demo.{
  demo_auth_backend, demo_authenticate, demo_log_path, demo_vehicle_secret,
}
use connected_vehicle_platfo.Demo.Main.{demo_parts, prepare}
use connected_vehicle_platfo.Demo.Delivery.Round.{Refuses, demo_manager, first_round_delivers}
use connected_vehicle_platfo.Demo.Delivery.{Connection, IsServed}
use connected_vehicle_platfo.TelemetryManager
use connected_vehicle_platfo.TelemetryManager.{TelemetryManager, publish_sample, generate_sample}
use connected_vehicle_platfo.TelemetryManager.Sample.{serialize}
use connected_vehicle_platfo.TelemetryManager.Sample.Json.{
  Value, string, number, IsReadable, all_plain, all_numeric, read_object,
}
use connected_vehicle_platfo.Demo.Delivery.Sample.{
  after_sample, sample_payload, sample_of, sample_is_printed,
}

-- A connection whose world is the bytes in flight and what has been printed.
abbrev pipe_os : Sockets (Text × Text)
pipe_os = record {
  socket = λ w. (pos 3, w);
  close = λ fd w. w;
  inet_pton = λ host. some 0x7f000001;
  connect = λ fd a w. (pos 0, w);
  send = λ fd frame (bytes, printed). (pos (length frame), (bytes ++ frame, printed));
  bind = λ fd a w. (pos 0, w);
  listen = λ fd backlog w. (pos 0, w);
  accept = λ fd w. (pos 4, w);
  recv = λ fd size (bytes, printed).
      (some (take (min size (length bytes)) bytes), (drop size bytes, printed));
}

abbrev pipe_platform : Platform (Text × Text)
pipe_platform = record {
  steady_now = λ w. (pos 0, w);
  sleep_for = λ ms w. w;
  local_time = λ format w. ([], w);
  write_stdout = λ text (bytes, printed). (bytes, printed ++ text);
  write_stderr = λ text w. w;
  create_directories = λ path w. w;
  open_append = λ path w. (false, w);
  write_file = λ path text w. w;
}

abbrev pipe_connection : Connection pipe_os (pos 3) (pos 4)
pipe_connection = record {
  in_flight = λ w. w.0;
  sends = λ bytes w whole. refl;
  receives = λ size w positive some_bytes. (min size (length w.0), omega arith, omega arith, refl);
}

abbrev dialled : SomeipClient
dialled = record (SomeipClient.make SomeipClient.default_config) {
  socket_fd = pos 3;
  connected = true;
}

-- The sample of a manager over that client, on a clock that gives an empty timestamp.
abbrev pipe_manager : TelemetryManager
pipe_manager = TelemetryManager.make (codes "ECU_001")

abbrev pipe_members : List (Text × Value)
pipe_members =
    (codes "vehicle_id", string (codes "ECU_001"))
    ∷ (codes "timestamp", string [])
    ∷ (codes "speed", number (codes "800"))
    ∷ (codes "rpm", number (codes "25000"))
    ∷ (codes "battery", number (codes "126"))
    ∷ (codes "fuel", number (codes "700"))
    ∷ []

pipe-IsReadable :
    IsReadable fake_doubles
      (sample_of pipe_os pipe_platform fake_doubles big pipe_manager dialled ([], []))
unfolding generate_sample TelemetryManager.make show_ℕ all_plain all_numeric
pipe-IsReadable = record {
  vehicle_id = refl;
  timestamp = refl;
  speed = refl;
  rpm = refl;
  battery = refl;
  fuel = refl;
}

sample_is_printed_example :
    let payload =
      sample_payload pipe_os pipe_platform fake_doubles big pipe_manager dialled ([], []) in
    let after = after_sample pipe_os pipe_platform fake_doubles big pipe_manager dialled ([], []) in
    IsServed pipe_os pipe_platform big (pos 4) payload after.1.1
    × (read_object 6 payload ≡ some pipe_members)
unfolding publish_sample generate_sample TelemetryManager.make publish frame_of is_connected
    serialize show_ℕ all_plain all_numeric
sample_is_printed_example =
    sample_is_printed pipe_os pipe_platform fake_doubles big pipe_manager dialled (pos 4)
      pipe_connection ([], []) refl refl pipe-IsReadable refl

-- The first iteration of `main` over that connection.
abbrev pipe_logger : Logger
pipe_logger = record { log_path = demo_log_path }

abbrev pipe_parts : Parts (SomeipClient × (Text × Text)) ℕ
pipe_parts = demo_parts pipe_platform pipe_os big fake_doubles [] pipe_logger

abbrev pipe_started : Bool × Here pipe_parts
pipe_started = start pipe_parts (prepare pipe_platform pipe_os big fake_doubles [] ([], []))

abbrev pipe_client : AuthClient (SomeipClient × (Text × Text))
pipe_client = record {
  backend = some demo_auth_backend;
  vehicle_id = codes "ECU_001";
  vehicle_secret = demo_vehicle_secret;
  access_token = codes "jwt-demo-token";
  expires_at = pos 3_600_000_000_000;
}

first_round_delivers_example :
    let (c, v) = checked pipe_parts pipe_client pipe_started.1.1 in
    let payload =
      sample_payload pipe_os pipe_platform fake_doubles big
        (demo_manager pipe_platform pipe_os big fake_doubles [] pipe_logger)
        c
        v in
    let (manager, (c', v')) =
      after_sample pipe_os pipe_platform fake_doubles big
        (demo_manager pipe_platform pipe_os big fake_doubles [] pipe_logger)
        c
        v in
    (round pipe_parts pipe_started.1
      ≡ (record pipe_started.1.0 { telemetry_manager = some manager }, (c', v')))
    × ((Refuses pipe_platform pipe_os big fake_doubles [] pipe_logger c payload v
          × (manager.pending_messages ≡ payload ∷ []))
        ⊎ (IsServed pipe_os pipe_platform big (pos 4) payload v'
            × (read_object 6 payload ≡ some pipe_members)))
unfolding start ConnectivityService.start_session ConnectivityService.start_transport
    ConnectivityService.authenticate ConnectivityService.connect ConnectivityService.give_up prepare
    ConnectivityService.make AuthClient.make AuthClient.authenticate AuthClient.is_token_valid
    SomeipClient.make connect demo_authenticate log ◌+ℤ◌ scale to_int64 generate_sample show_ℕ
    TelemetryManager.make
first_round_delivers_example =
    first_round_delivers pipe_platform pipe_os big fake_doubles [] pipe_logger ([], []) pipe_client
      refl refl refl (pos 4) pipe_connection refl refl pipe-IsReadable
