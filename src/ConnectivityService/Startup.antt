-- ===== src/ConnectivityService/Startup.antt =====
-- src/ConnectivityService/connectivity_service.cpp: what `start` comes to on each path.
use connected_vehicle_platfo.Prelude.{
  ◌≡◌, ◌≢◌, refl, ◌⊎◌, inl, inr, Bool, false, true, Option, none, some, is_empty, Bool-cases, arith,
  codes, ap, ◌∙◌,
}
use connected_vehicle_platfo.AuthClient.Validity.{authenticate-filled}
use connected_vehicle_platfo.AuthClient.{AuthClient}
use connected_vehicle_platfo.MqttClient.Interface.{IMqttClient}
use connected_vehicle_platfo.ConnectivityService.{
  starting, authenticating, publishing, disconnected, ConnectivityService, Parts, Here, set_state,
  info, start, start_session, start_transport, authenticate, connect, give_up,
}

module _ {W D : Type 0} (parts : Parts W D) where
  open parts use {mqtt_client}

  -- A service whose client holds a token that is not empty.
  abbrev pub HasToken : ConnectivityService W → Type 0
  HasToken s =
      (client : AuthClient W) × (s.auth_client ≡ some client)
      × (is_empty client.access_token ≡ false)

  -- Success: the service runs, its worker is started and its client has a token.
  pub record Started (before after : ConnectivityService W) : Type 0 where
    pub state : after.state ≡ publishing
    pub running : after.running ≡ true
    pub worker : after.worker ≡ true
    pub token : HasToken after
    pub transport : mqtt_client ≢ none
    pub telemetry : after.telemetry_manager ≡ before.telemetry_manager

  -- Failure: nothing runs, and no worker is started.
  pub record Failed (before after : ConnectivityService W) : Type 0 where
    pub state : after.state ≡ disconnected
    pub running : after.running ≡ false
    pub worker : after.worker ≡ before.worker
    pub telemetry : after.telemetry_manager ≡ before.telemetry_manager

  abbrev pub Outcome : ConnectivityService W → Bool × Here parts → Type 0
  Outcome before (ok, (after, w)) =
      ((ok ≡ true) × Started before after) ⊎ ((ok ≡ false) × Failed before after)

  -- `connect` leaves the service alone, and its success shows that there is a client.
  connect-same :
      (client : Option (IMqttClient W)) (here : Here parts)
      → (connect parts client here).1.0 ≡ here.0
  unfolding connect
  connect-same none here = refl
  connect-same (some client) here = refl

  connect-ne-none :
      (client : Option (IMqttClient W)) (here : Here parts)
      → (connect parts client here).0 ≡ true
      → client ≢ none
  unfolding connect
  connect-ne-none none here up = cc
  connect-ne-none (some client) here up = λ e. cc

  start_transport-Outcome :
      (before s : ConnectivityService W) (w : W)
      → HasToken s
      → s.running ≡ true
      → s.worker ≡ before.worker
      → s.telemetry_manager ≡ before.telemetry_manager
      → Outcome before (start_transport parts (λ now. now) (s, w))
  unfolding start_transport give_up
  start_transport-Outcome before s w (client, has, filled) runs idle same =
      let dialled =
        info parts 39 (codes "Authentication succeeded") (set_state parts authenticating (s, w)) in
      let kept = connect-same mqtt_client dialled in
      let (ok, (s1, w1)) = connect parts mqtt_client dialled in
      elim (Bool-cases ok) [
        | inl up ↦ rw up (
            inl (
              refl,
              record {
                state = refl;
                running = ap (λ (r : ConnectivityService W). r.running) kept ∙ runs;
                worker = refl;
                token =
                    (client, ap (λ (r : ConnectivityService W). r.auth_client) kept ∙ has, filled);
                transport = connect-ne-none mqtt_client dialled up;
                telemetry = ap (λ (r : ConnectivityService W). r.telemetry_manager) kept ∙ same;
              },
            ))
        | inr down ↦ rw down (
            inr (
              refl,
              record {
                state = refl;
                running = refl;
                worker = ap (λ (r : ConnectivityService W). r.worker) kept ∙ idle;
                telemetry = ap (λ (r : ConnectivityService W). r.telemetry_manager) kept ∙ same;
              },
            ))
      ]

  authenticate-same :
      (auth : Option (AuthClient W)) (here : Here parts)
      → let (ok, (s', w')) = authenticate parts auth here in
        (s'.running ≡ here.0.running)
        × (s'.worker ≡ here.0.worker)
        × (s'.telemetry_manager ≡ here.0.telemetry_manager)
        × (ok ≡ true → HasToken s')
  unfolding authenticate
  authenticate-same none here = (refl, refl, refl, λ e. cc)
  authenticate-same (some client) (s, w) =
      (refl, refl, refl, λ up. (_, refl, authenticate-filled parts.platform (client, w) up))

  start_session-Outcome :
      (s : ConnectivityService W) (w : W)
      → Outcome s (start_session parts (λ now. now) (record s { running = true }, w))
  unfolding start_session give_up
  start_session-Outcome s w =
      let asked =
        info parts 29 (codes "Starting connectivity service")
          (set_state parts starting (record s { running = true }, w)) in
      let facts = authenticate-same s.auth_client asked in
      let (ok, (s1, w1)) = authenticate parts s.auth_client asked in
      elim (Bool-cases ok) [
        | inl up ↦ rw up (start_transport-Outcome s s1 w1 (facts.3 up) facts.0 facts.1 facts.2)
        | inr down ↦ rw down (
            inr (
              refl,
              record { state = refl; running = refl; worker = facts.1; telemetry = facts.2 },
            ))
      ]

  -- On a service that does not run, start either succeeds, with the service publishing, its worker
  -- started and a token that is not empty in its client, or fails, with the service disconnected,
  -- not running and no worker started. A service that runs answers true and nothing changes.
  pub start-Outcome :
      (s : ConnectivityService W) (w : W)
      → ((s.running ≡ false) × Outcome s (start parts (s, w)))
        ⊎ ((s.running ≡ true) × (start parts (s, w) ≡ (true, (s, w))))
  unfolding start
  start-Outcome s w = elim (Bool-cases s.running) [
    | inr idle ↦ inl (idle, simp idle (start_session-Outcome s w))
    | inl runs ↦ inr (runs, ground arith)
  ]
