-- ===== src/Demo/Delivery/Round.antt =====
-- src/main.cpp, src/ConnectivityService/connectivity_service.cpp, src/SomeipClient/someip_client.cpp
-- and src/TelemetryManager/telemetry_manager.cpp: the worker's first iteration after `main` has
-- started the service, up to what the listener prints.
use connected_vehicle_platfo.Prelude.{
  ◌*◌, ◌≡◌, refl, ap, ◌⊎◌, inl, inr, true, false, not, some, [], ◌∷◌, ℤ, pos, eqb_ℤ, arith,
  is_negative, Text, length,
}
use connected_vehicle_platfo.Platform.{Platform, beside}
use connected_vehicle_platfo.Sockets.{Sockets}
use connected_vehicle_platfo.AuthClient
use connected_vehicle_platfo.AuthClient.{AuthClient}
use connected_vehicle_platfo.Logger.{Logger}
use connected_vehicle_platfo.SomeipClient.{
  SomeipClient, someip_client, frame, publish, is_connected,
}
use connected_vehicle_platfo.SomeipClient.Frame.{ByteOrder}
use connected_vehicle_platfo.TelemetryManager
use connected_vehicle_platfo.TelemetryManager.{
  TelemetryManager, Doubles, timestamp_format, send, generate_sample,
}
use connected_vehicle_platfo.TelemetryManager.Queue.{publish_sample_outcome}
use connected_vehicle_platfo.TelemetryManager.Sample.Json.{IsReadable, members_of, read_object}
use connected_vehicle_platfo.ConnectivityService
use connected_vehicle_platfo.ConnectivityService.{Parts, start, round, publish_interval_sec}
use connected_vehicle_platfo.ConnectivityService.Startup.{start-Outcome}
use connected_vehicle_platfo.ConnectivityService.Ready.{checked, round-ready}
use connected_vehicle_platfo.Demo.Main.{Shared, demo_config, demo_parts, prepare}
use connected_vehicle_platfo.Demo.Main.Started.{start-up, is_connected-same, is_token_valid-beside}
use connected_vehicle_platfo.Demo.Delivery.{Connection, IsServed}
use connected_vehicle_platfo.Demo.Delivery.Sample.{
  after_sample, sample_payload, sample_of, sample_is_printed,
}

module _ {W D : Type 0} (platform : Platform W) (os : Sockets W) (order : ByteOrder)
    (doubles : Doubles D) (source_file : Text) (logger : Logger) where
  abbrev parts : Parts (Shared W) D
  parts = demo_parts platform os order doubles source_file logger

  -- The telemetry manager that `main` makes.
  abbrev pub demo_manager : TelemetryManager
  demo_manager = TelemetryManager.make demo_config.client_id

  start-telemetry :
      (w : W)
      → let started = start parts (prepare platform os order doubles source_file w) in
        started.0 ≡ true → started.1.0.telemetry_manager ≡ some demo_manager
  unfolding prepare ConnectivityService.make
  start-telemetry w ok =
      let (s, shared) = prepare platform os order doubles source_file w in
      elim (start-Outcome parts s shared) [
        | inr (runs, same) ↦ cc
        | inl (idle, inl (up, started)) ↦ started.telemetry
        | inl (idle, inr (down, failed)) ↦ cc
      ]

  -- The socket takes less than the frame of a payload, or fails.
  abbrev pub Refuses : SomeipClient → Text → W → Type 0
  Refuses c payload w =
      eqb_ℤ (os.send c.socket_fd (frame os order c payload) w).0
        (pos (length (frame os order c payload)))
      ≡ false

  publish-Refuses :
      (c : SomeipClient) (topic payload : Text) (qos : ℤ) (w : W)
      → is_connected os order (c, w) ≡ true
      → (publish os order topic payload qos (c, w)).0 ≡ false
      → Refuses c payload w
  unfolding publish is_connected
  publish-Refuses c topic payload qos w up refused = ground arith

  -- What becomes of the first sample: it is queued, or the listener prints it.
  sample_arrives :
      (c : SomeipClient) (w : W) (listener_fd : ℤ)
      (connection : Connection os c.socket_fd listener_fd)
      → is_connected os order (c, w) ≡ true
      → connection.in_flight (platform.local_time timestamp_format w).1 ≡ []
      → is_negative listener_fd ≡ false
      → IsReadable doubles (sample_of os platform doubles order demo_manager c w)
      → let payload = sample_payload os platform doubles order demo_manager c w in
        let (manager, (c', w')) = after_sample os platform doubles order demo_manager c w in
        (Refuses c payload (platform.local_time timestamp_format w).1
          × (manager.pending_messages ≡ payload ∷ []))
        ⊎ (IsServed os platform order listener_fd payload w'
            × (read_object 6 payload
                ≡ some (members_of doubles (sample_of os platform doubles order demo_manager c w))))
  unfolding TelemetryManager.make send generate_sample
  sample_arrives c w listener_fd connection up quiet valid readable =
      let still_up =
        is_connected-same os order (c, w) (c, (platform.local_time timestamp_format w).1) refl up in
      elim ((publish_sample_outcome (beside platform) doubles (someip_client os order) demo_manager
        (c, w)).1) [
          | inr (why, queued) ↦ inl (
            elim why [ inl down ↦ cc | inr refused ↦ publish-Refuses c _ _ _ _ still_up refused ],
            ap (λ (r : TelemetryManager). r.pending_messages) queued,
          )
          | inl (connected, accepted, sent) ↦ inr (
              sample_is_printed os platform doubles order demo_manager c listener_fd connection w
                quiet valid readable
                (ap (λ (s : TelemetryManager × Shared W). s.0.pending_messages) sent))
        ]

  -- After main has started the service over its SOME/IP client, where start succeeded and its token
  -- is still valid when the first iteration checks it: the iteration is publishSample over that
  -- client, followed by the pause. On a TCP connection from the client to a valid descriptor of the
  -- listener, with nothing in flight when the sample has its timestamp, where the texts of the
  -- sample need no escape and its numbers are printed without comma, brace and quotation mark,
  -- there are two cases. Either the socket does not take the whole frame, and the sample is the one
  -- message in the queue; or the listener receives at least one byte and at most its buffer, prints
  -- one line and closes the connection. The line has the whole payload if what is received covers
  -- the header and the payload, and else what has come of the payload; and a reader of JSON finds
  -- in the payload the six members of the sample.
  pub first_round_delivers :
      (w : W) (client : AuthClient (Shared W))
      → let started = start parts (prepare platform os order doubles source_file w) in
        started.0 ≡ true
        → started.1.0.auth_client ≡ some client
        → (AuthClient.is_token_valid (beside platform) (client, started.1.1)).0 ≡ true
        → let (c, v) = checked parts client started.1.1 in
          let v1 = (platform.local_time timestamp_format v).1 in
          (listener_fd : ℤ) (connection : Connection os c.socket_fd listener_fd)
          → connection.in_flight v1 ≡ []
          → is_negative listener_fd ≡ false
          → IsReadable doubles (sample_of os platform doubles order demo_manager c v)
          → let payload = sample_payload os platform doubles order demo_manager c v in
            let (manager, (c', v')) = after_sample os platform doubles order demo_manager c v in
            (round parts started.1 ≡ (
              record started.1.0 { telemetry_manager = some manager },
              (c', platform.sleep_for (publish_interval_sec * 1000) v'),
            ))
            × ((Refuses c payload v1 × (manager.pending_messages ≡ payload ∷ []))
                ⊎ (IsServed os platform order listener_fd payload v'
                    × (read_object 6 payload
                        ≡ some (
                            members_of doubles
                              (sample_of os platform doubles order demo_manager c v)))))
  first_round_delivers w client ok has valid listener_fd connection quiet valid_fd readable =
      let here = (start parts (prepare platform os order doubles source_file w)).1 in
      let there = checked parts client here.1 in
      let up =
        is_connected-same os order here.1 there (is_token_valid-beside platform client here.1)
          (start-up platform os order doubles source_file logger w ok) in
      (
        round-ready parts here client demo_manager has valid (ap not up) (start-telemetry w ok),
        sample_arrives there.0 there.1 listener_fd connection up quiet valid_fd readable,
      )
