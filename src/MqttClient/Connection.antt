-- ===== src/MqttClient/Connection.antt =====
-- src/MqttClient/mqtt_client.cpp: what `MqttClient` reports of its connection, over any backend.
use connected_vehicle_platfo.Prelude.{
  ◌≡◌, refl, sym, ◌∙◌, ap, Bool, false, true, ◌&&◌, ℤ, Text, List, [], ◌∷◌, arith, if◌then◌else◌,
}
use connected_vehicle_platfo.MqttClient.Interface.{IMqttBackend}
use connected_vehicle_platfo.MqttClient.{
  MqttClient, connect, disconnect, reconnect, publish, subscribe, is_connected,
}

pub data Call : Type 0 where
  connects disconnects reconnects : Call
  publishes : Text → Text → ℤ → Call
  subscribes : Text → ℤ → Call

-- What the answers so far say of the connection, from what was known before.
abbrev pub known : Bool → List (Call × Bool) → Bool
known up [] = up
known up ((connects, ok) ∷ rest) = known ok rest
known up ((disconnects, ok) ∷ rest) = known false rest
known up ((reconnects, ok) ∷ rest) = known ok rest
known up ((publishes _ _ _, ok) ∷ rest) = known up rest
known up ((subscribes _ _, ok) ∷ rest) = known up rest

module _ {W : Type 0} (backend : IMqttBackend W) where
  -- One call, with its answer. Between two calls the world may change by itself, by `drift`.
  pub step : Call → MqttClient × W → Bool × (MqttClient × W)
  step connects s = connect backend s
  step disconnects s = disconnect backend s
  step reconnects s = reconnect backend s
  step (publishes topic payload qos) s = publish backend topic payload qos s
  step (subscribes topic qos) s = subscribe backend topic qos s

  -- The calls with their answers, and the state after them.
  abbrev pub run : List (Call × (W → W)) → MqttClient × W → List (Call × Bool) × (MqttClient × W)
  run [] s = ([], s)
  run ((call, drift) ∷ rest) (c, w) =
      let (ok, s) = step call (c, drift w) in
      let (answers, s') = run rest s in ((call, ok) ∷ answers, s')

  step-known :
      (call : Call) (s : MqttClient × W)
      → (step call s).1.0.connected ≡ known s.0.connected ((call, (step call s).0) ∷ [])
  unfolding step connect disconnect reconnect publish subscribe
  step-known connects s = ground arith
  step-known _ s = ground arith

  known-append :
      (up : Bool) (a : Call × Bool) (rest : List (Call × Bool))
      → known up (a ∷ rest) ≡ known (known up (a ∷ [])) rest
  known-append up (connects, ok) rest = refl
  known-append up (disconnects, ok) rest = refl
  known-append up (reconnects, ok) rest = refl
  known-append up (publishes _ _ _, ok) rest = refl
  known-append up (subscribes _ _, ok) rest = refl

  -- After any calls, whatever the backend and the network do in between, isConnected of MqttClient
  -- is what the answers to connect, disconnect and reconnect say: the last answer of a connect or
  -- reconnect that no later one of the three has replaced, false after a disconnect.
  pub is_connected-run :
      (calls : List (Call × (W → W))) (s : MqttClient × W)
      → let (answers, s') = run calls s in
        is_connected backend s' ≡ known (is_connected backend s) answers
  unfolding is_connected
  is_connected-run [] s = refl
  is_connected-run ((call, drift) ∷ rest) (c, w) =
      let (ok, s) = step call (c, drift w) in
      let (answers, _) = run rest s in
      is_connected-run rest s
      ∙ ap (λ (up : Bool). known up answers) (step-known call (c, drift w))
      ∙ sym (known-append c.connected (call, ok) answers)

  -- `reconnect` succeeds exactly if the backend's `disconnect` succeeds and then its `connect`
  -- with the configured broker and client id; the client is connected exactly then. If the
  -- backend's `disconnect` fails, its `connect` is not called.
  pub reconnect_outcome :
      (c : MqttClient) (w : W)
      → let (closed, w1) = backend.disconnect w in
        let (opened, w2) = backend.connect c.config.broker c.config.client_id w1 in
        reconnect backend (c, w) ≡ (
          closed && opened,
          (record c { connected = closed && opened }, (if closed then w2 else w1)),
        )
  unfolding reconnect
  reconnect_outcome c w = ground arith

  -- A connect of MqttClient after one that succeeded succeeds too, and changes nothing.
  pub connect_twice :
      (s : MqttClient × W)
      → (connect backend s).0 ≡ true
      → connect backend (connect backend s).1 ≡ (true, (connect backend s).1)
  unfolding connect
  connect_twice (c, w) ok = ground arith
