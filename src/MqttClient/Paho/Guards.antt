-- ===== src/MqttClient/Paho/Guards.antt =====
-- src/MqttClient/mqtt_client.cpp: the fields of `PahoMqttBackend` hang together.
use connected_vehicle_platfo.Prelude.{
  ◌≡◌, ◌≢◌, refl, ◌⊎◌, inl, Bool, false, none, ℤ, Text, List, [], ◌∷◌, arith,
}
use connected_vehicle_platfo.MqttClient.Paho.{
  PahoLibrary, PahoMqttBackend, initial, connect, disconnect, publish, subscribe,
}

data Call : Type 0 where
  connects : Text → Text → Call
  disconnects : Call
  publishes : Text → Text → ℤ → Call
  subscribes : Text → ℤ → Call

module _ {W : Type 0} (paho : PahoLibrary W) where
  -- A backend that takes itself for connected has a client.
  abbrev HasClient : PahoMqttBackend paho → Type 0
  HasClient b = (b.connected ≡ false) ⊎ (b.client ≢ none)

  step : Call → PahoMqttBackend paho × W → Bool × (PahoMqttBackend paho × W)
  step (connects broker client_id) s = connect paho broker client_id s
  step disconnects s = disconnect paho s
  step (publishes topic payload qos) s = publish paho topic payload qos s
  step (subscribes topic qos) s = subscribe paho topic qos s

  run : List Call → PahoMqttBackend paho × W → PahoMqttBackend paho × W
  run [] s = s
  run (call ∷ rest) s = run rest (step call s).1

  step-HasClient :
      (call : Call) (s : PahoMqttBackend paho × W) → HasClient s.0 → HasClient (step call s).1.0
  unfolding step connect disconnect publish subscribe
  step-HasClient (connects broker client_id) (b, w) h = ground arith
  step-HasClient disconnects (b, w) h = inl refl
  step-HasClient _ (b, w) h = ground arith

  run-HasClient_from :
      (calls : List Call) (s : PahoMqttBackend paho × W) → HasClient s.0 → HasClient (run calls s).0
  unfolding run
  run-HasClient_from [] s h = h
  run-HasClient_from (call ∷ rest) s h =
      run-HasClient_from rest (step call s).1 (step-HasClient call s h)

  -- After any calls on a new Paho backend, whatever the library answers or throws, a backend that
  -- takes itself for connected holds a client.
  run-HasClient : (calls : List Call) (w : W) → HasClient (run calls (initial paho, w)).0
  run-HasClient calls w = run-HasClient_from calls (initial paho, w) (inl refl)

  -- Whatever the Paho library answers or throws: after connect the flag is its answer, after
  -- disconnect the flag is down, also when an exception made it fail, and publish and subscribe
  -- leave the client and the flag as they were.
  flag_after_call :
      (s : PahoMqttBackend paho × W) (broker client_id topic payload : Text) (qos : ℤ)
      → ((connect paho broker client_id s).1.0.connected ≡ (connect paho broker client_id s).0)
        × ((disconnect paho s).1.0.connected ≡ false)
        × ((publish paho topic payload qos s).1.0 ≡ s.0)
        × ((subscribe paho topic qos s).1.0 ≡ s.0)
  unfolding connect disconnect publish subscribe
  flag_after_call (b, w) broker client_id topic payload qos =
      (ground arith, refl, ground arith, ground arith)
