-- ===== src/ConnectivityService/Kept.antt =====
-- src/ConnectivityService/connectivity_service.cpp: the worker writes neither `running_` nor
-- `worker_`.
use connected_vehicle_platfo.Prelude.{
  ◌≡◌, refl, ◌∙◌, inl, inr, not, ◌||◌, Option, none, some, List, [], ◌∷◌, is_empty, Bool-cases,
  codes, arith,
}
use connected_vehicle_platfo.AuthClient.{AuthClient}
use connected_vehicle_platfo.AuthClient
use connected_vehicle_platfo.MqttClient.Interface.{IMqttClient}
use connected_vehicle_platfo.TelemetryManager.{TelemetryManager}
use connected_vehicle_platfo.ConnectivityService.{
  ConnectivityService, Parts, Here, set_state, warning, reconnecting, refresh, check_client,
  check_token, check_connection, reconnect, publish_with, publish_telemetry, publish_step, round,
  go_round, finish, run_loop,
}

module _ {W D : Type 0} (parts : Parts W D) where
  -- Both fields as before.
  pub record KeepsFields (before after : ConnectivityService W) : Type 0 where
    pub running : after.running ≡ before.running
    pub worker : after.worker ≡ before.worker

  abbrev pub Keeps : Here parts → Here parts → Type 0
  Keeps here after = KeepsFields here.0 after.0

  pub Keeps-trans :
      {a b c : ConnectivityService W} → KeepsFields a b → KeepsFields b c → KeepsFields a c
  Keeps-trans f g = record { running = g.running ∙ f.running; worker = g.worker ∙ f.worker }

  refresh-Keeps :
      (client : AuthClient W) (here : Here parts) → Keeps here (refresh parts client here).1
  unfolding refresh
  refresh-Keeps client here = ground arith

  check_token-Keeps : (here : Here parts) → Keeps here (check_token parts here).1
  unfolding check_token check_client
  check_token-Keeps (s, w) = go s.auth_client
    where
      go : (client : Option (AuthClient W)) → Keeps (s, w) (check_client parts client (s, w)).1
      go none = record { running = refl; worker = refl }
      go (some client) =
          let (valid, (client', w')) = AuthClient.is_token_valid parts.platform (client, w) in
          elim (Bool-cases (not valid || is_empty client'.access_token)) [
            | inl stale ↦ rw stale (refresh-Keeps client' (s, w'))
            | inr good ↦ rw good (record { running = refl; worker = refl })
          ]

  reconnect-same :
      (client : Option (IMqttClient W)) (here : Here parts)
      → (reconnect parts client here).1.0 ≡ here.0
  unfolding reconnect
  reconnect-same none here = refl
  reconnect-same (some client) here = refl

  check_connection-Keeps : (here : Here parts) → Keeps here (check_connection parts here).1
  unfolding check_connection
  check_connection-Keeps (s, w) = ground (arith, reconnect-same parts.mqtt_client (lost (s, w)))
    where
      lost : Here parts → Here parts
      lost here =
          warning parts 102 (codes "Connection lost; attempting reconnect")
            (set_state parts reconnecting here)

  publish_with-Keeps :
      (manager : Option TelemetryManager) (here : Here parts)
      → Keeps here (publish_with parts manager here).1
  unfolding publish_with
  publish_with-Keeps none here = record { running = refl; worker = refl }
  publish_with-Keeps (some manager) here = record { running = refl; worker = refl }

  publish_step-Keeps : (here : Here parts) → Keeps here (publish_step parts here)
  unfolding publish_step publish_telemetry
  publish_step-Keeps (s, w) = ground (arith, publish_with-Keeps s.telemetry_manager (s, w))

  pub round-Keeps : (here : Here parts) → Keeps here (round parts here)
  unfolding round
  round-Keeps here =
      let (authorised, here1) = check_token parts here in
      let (up, here2) = check_connection parts here1 in
      let checked = check_token-Keeps here in
      let dialled = Keeps-trans checked (check_connection-Keeps here1) in
      elim (Bool-cases authorised) [
        | inr stale ↦ rw stale checked
        | inl ok ↦ rw ok (elim (Bool-cases up) [
          | inr down ↦ rw down dialled
          | inl ready ↦ rw ready (Keeps-trans dialled (publish_step-Keeps here2))
        ])
      ]

  -- What other threads do between two iterations leaves both fields alone.
  abbrev pub Drifts : List (Here parts → Here parts) → Type 0
  Drifts [] = Unit {0}
  Drifts (drift ∷ rest) = ((here : Here parts) → Keeps here (drift here)) × Drifts rest

  pub go_round-Keeps :
      (drifts : List (Here parts → Here parts)) (here : Here parts)
      → Drifts drifts
      → Keeps here (go_round parts drifts here)
  unfolding go_round
  go_round-Keeps [] here calm = record { running = refl; worker = refl }
  go_round-Keeps (drift ∷ rest) here calm =
      let drifted = Keeps-trans (calm.0 here) (round-Keeps (drift here)) in
      Keeps-trans drifted (go_round-Keeps rest (round parts (drift here)) calm.1)

  finish-Keeps :
      (client : Option (IMqttClient W)) (here : Here parts) → Keeps here (finish parts client here)
  unfolding finish
  finish-Keeps none here = record { running = refl; worker = refl }
  finish-Keeps (some client) here = record { running = refl; worker = refl }

  pub run_loop-Keeps :
      (drifts : List (Here parts → Here parts)) (here : Here parts)
      → Drifts drifts
      → Keeps here (run_loop parts drifts here)
  unfolding run_loop
  run_loop-Keeps [] here d = finish-Keeps parts.mqtt_client here
  run_loop-Keeps (drift ∷ rest) here d =
      let drifted = Keeps-trans (d.0 here) (round-Keeps (drift here)) in
      Keeps-trans drifted (run_loop-Keeps rest (round parts (drift here)) d.1)
