-- ===== src/Demo/Main/Started.antt =====
-- src/main.cpp: the SOME/IP client after a start that succeeds.
use connected_vehicle_platfo.Prelude.{
  ◌≡◌, refl, sym, subst, true, some, some-injective, Text, arith,
}
use connected_vehicle_platfo.Platform.{Platform, beside}
use connected_vehicle_platfo.Sockets.{Sockets}
use connected_vehicle_platfo.AuthClient
use connected_vehicle_platfo.AuthClient.{AuthClient}
use connected_vehicle_platfo.TelemetryManager.{Doubles}
use connected_vehicle_platfo.Logger.{Logger}
use connected_vehicle_platfo.MqttClient.Interface.{IMqttClient}
use connected_vehicle_platfo.SomeipClient.{SomeipClient, connect, is_connected}
use connected_vehicle_platfo.SomeipClient.Frame.{ByteOrder}
use connected_vehicle_platfo.SomeipClient.Lifecycle.{IsConsistent}
use connected_vehicle_platfo.SomeipClient
use connected_vehicle_platfo.ConnectivityService
use connected_vehicle_platfo.ConnectivityService.{Parts, start}
use connected_vehicle_platfo.ConnectivityService.Connected.{Connecting, start-After}
use connected_vehicle_platfo.Demo.{demo_auth_backend}
use connected_vehicle_platfo.Demo.Main.{Shared, demo_parts, prepare}
use connected_vehicle_platfo.Demo.Main.Outcome.{log-beside}

-- A connection attempt that succeeds leaves the client connected, with a descriptor.
connect-up :
    {W : Type 0} (os : Sockets W) (order : ByteOrder) (s : SomeipClient × W)
    → IsConsistent s.0
    → (connect os order s).0 ≡ true
    → is_connected os order (connect os order s).1 ≡ true
unfolding connect is_connected
connect-up os order (c, w) consistent up = ground arith

-- Whether a client is connected does not depend on the world.
pub is_connected-same :
    {W : Type 0} (os : Sockets W) (order : ByteOrder) (s t : SomeipClient × W)
    → t.0 ≡ s.0
    → is_connected os order s ≡ true
    → is_connected os order t ≡ true
unfolding is_connected
is_connected-same os order (c, w) (d, v) same up = ground arith

-- The check of a token leaves what stands beside the world alone.
pub is_token_valid-beside :
    {C W : Type 0} (platform : Platform W) (client : AuthClient (C × W)) (s : C × W)
    → (AuthClient.is_token_valid (beside platform) (client, s)).1.1.0 ≡ s.0
unfolding AuthClient.is_token_valid
is_token_valid-beside platform client s = ground arith

-- So does an authentication against the backend of the demonstration.
authenticate-beside :
    {C W : Type 0} (platform : Platform W) (client : AuthClient (C × W)) (s : C × W)
    → client.backend ≡ some demo_auth_backend
    → (AuthClient.authenticate (beside platform) (client, s)).1.1.0 ≡ s.0
unfolding AuthClient.authenticate
authenticate-beside platform client s backed = rw backed (ground arith)

module _ {W D : Type 0} (platform : Platform W) (os : Sockets W) (order : ByteOrder)
    (doubles : Doubles D) (source_file : Text) (logger : Logger) where
  abbrev parts : Parts (Shared W) D
  parts = demo_parts platform os order doubles source_file logger

  connecting :
      (client : AuthClient (Shared W))
      → client.backend ≡ some demo_auth_backend
      → Connecting parts client (λ s. IsConsistent s.0) (λ s. is_connected os order s ≡ true)
  connecting client backed = record {
    logs_before = λ level message location s h.
        subst IsConsistent (sym (log-beside platform logger level message location s.0 s.1)) h;
    authenticates =
        λ s h. subst IsConsistent (sym (authenticate-beside platform client s backed)) h;
    connects = λ transport s is_transport h up.
        subst
          (λ (t : IMqttClient (Shared W)).
            (t.connect s).0 ≡ true → is_connected os order (t.connect s).1 ≡ true)
          (some-injective _ _ is_transport) (connect-up os order s h) up;
    logs_after = λ level message location s h.
        is_connected-same os order s _ (log-beside platform logger level message location s.0 s.1)
          h;
  }

  -- After a start that succeeds the client of `main` is connected.
  pub start-up :
      (w : W)
      → let started = start parts (prepare platform os order doubles source_file w) in
        started.0 ≡ true → is_connected os order started.1.1 ≡ true
  unfolding prepare ConnectivityService.make AuthClient.make SomeipClient.make
  start-up w ok =
      start-After parts (connecting _ refl) (prepare platform os order doubles source_file w) refl
        refl refl ok
