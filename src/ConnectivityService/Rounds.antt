-- ===== src/ConnectivityService/Rounds.antt =====
-- src/ConnectivityService/connectivity_service.cpp: what one iteration of `runLoop` comes to.
use connected_vehicle_platfo.Prelude.{
  ◌≡◌, ◌≢◌, refl, sym, ◌∙◌, ap, subst, ◌⊎◌, inl, inr, Bool, false, true, not, ◌||◌, ◌&&◌, Option,
  none, some, is_empty, codes, Bool-cases, arith,
}
use connected_vehicle_platfo.AuthClient.{AuthClient}
use connected_vehicle_platfo.AuthClient
use connected_vehicle_platfo.AuthClient.Validity.{is_token_valid-same}
use connected_vehicle_platfo.MqttClient.Interface.{IMqttClient}
use connected_vehicle_platfo.TelemetryManager.{TelemetryManager}
use connected_vehicle_platfo.TelemetryManager.Queue.{publish_sample-true}
use connected_vehicle_platfo.ConnectivityService.{
  authenticating, connected, publishing, disconnected, reconnecting, ConnectivityService, Parts,
  Here, set_state, warning, sleep_seconds, refresh, check_client, check_token, is_down, reconnect,
  check_connection, publish_with, publish_telemetry, publish_step, round, publish_interval_sec,
}

module _ {W D : Type 0} (parts : Parts W D) where
  -- A client that is there holds a token that is not empty.
  abbrev pub HoldsToken : Option (AuthClient W) → Type 0
  HoldsToken none = Unit {0}
  HoldsToken (some client) = is_empty client.access_token ≡ false

  abbrev pub TokenFilled : ConnectivityService W → Type 0
  TokenFilled s = HoldsToken s.auth_client

  -- The token's check lets an iteration pass, with the state as it was or `publishing`.
  pub record Passed (before after : ConnectivityService W) : Type 0 where
    pub token : TokenFilled after
    pub telemetry : after.telemetry_manager ≡ before.telemetry_manager
    pub state : (after.state ≡ before.state) ⊎ (after.state ≡ publishing)

  -- A check ends the iteration.
  pub record Skipped (before after : ConnectivityService W) : Type 0 where
    pub state : after.state ≡ disconnected
    pub telemetry : after.telemetry_manager ≡ before.telemetry_manager

  abbrev TokenChecked : ConnectivityService W → Bool × Here parts → Type 0
  TokenChecked before (ok, (after, w)) =
      ((ok ≡ true) × Passed before after) ⊎ ((ok ≡ false) × Skipped before after)

  refresh-TokenChecked :
      (client : AuthClient W) (here : Here parts) → TokenChecked here.0 (refresh parts client here)
  unfolding refresh
  refresh-TokenChecked client (s, w) =
      let (s1, w1) =
        warning parts 88 (codes "Token is empty or invalid; attempting to refresh token")
          (set_state parts authenticating (s, w)) in
      let (ok, (client', w')) = AuthClient.refresh_token parts.platform (client, w1) in
      elim (Bool-cases (ok && not (is_empty client'.access_token))) [
        | inl good ↦
            let plain : is_empty client'.access_token ≡ false = ground arith in
            rw good (inl (refl, record { token = plain; telemetry = refl; state = inr refl }))
        | inr bad ↦ rw bad (inr (refl, record { state = refl; telemetry = refl }))
      ]

  check_client-TokenChecked :
      (client : Option (AuthClient W)) (s : ConnectivityService W) (w : W)
      → s.auth_client ≡ client
      → TokenChecked s (check_client parts client (s, w))
  unfolding check_client
  check_client-TokenChecked none s w e =
      inl (refl, record { token = subst HoldsToken (sym e) tt; telemetry = refl; state = inl refl })
  check_client-TokenChecked (some client) s w e =
      let (valid, (client', w')) = AuthClient.is_token_valid parts.platform (client, w) in
      let same : client' ≡ client = is_token_valid-same parts.platform client w in
      elim (Bool-cases (not valid || is_empty client'.access_token)) [
        | inl stale ↦ rw stale (refresh-TokenChecked client' (s, w'))
        | inr good ↦
            let plain : is_empty client'.access_token ≡ false = ground arith in
            rw good (
              inl (
                refl,
                record {
                  token = subst HoldsToken (ap some same ∙ sym e) plain;
                  telemetry = refl;
                  state = inl refl;
                },
              ))
      ]

  check_token-TokenChecked : (here : Here parts) → TokenChecked here.0 (check_token parts here)
  unfolding check_token
  check_token-TokenChecked (s, w) = check_client-TokenChecked s.auth_client s w refl

  -- The connection's check lets an iteration pass only with a client.
  record Dialled (before after : ConnectivityService W) : Type 0 where
    client : parts.mqtt_client ≢ none
    auth : after.auth_client ≡ before.auth_client
    telemetry : after.telemetry_manager ≡ before.telemetry_manager
    state : (after.state ≡ before.state) ⊎ (after.state ≡ connected)

  abbrev ConnectionChecked : ConnectivityService W → Bool × Here parts → Type 0
  ConnectionChecked before (ok, (after, w)) =
      ((ok ≡ true) × Dialled before after) ⊎ ((ok ≡ false) × Skipped before after)

  is_down-ne-none :
      (client : Option (IMqttClient W)) (w : W) → is_down parts client w ≡ false → client ≢ none
  is_down-ne-none none w up = cc
  is_down-ne-none (some client) w up = λ e. cc

  reconnect-facts :
      (client : Option (IMqttClient W)) (here : Here parts)
      → ((reconnect parts client here).1.0 ≡ here.0)
        × ((reconnect parts client here).0 ≡ true → client ≢ none)
  unfolding reconnect
  reconnect-facts none here = (refl, λ up. cc)
  reconnect-facts (some client) here = (refl, λ up e. cc)

  check_connection-ConnectionChecked :
      (here : Here parts) → ConnectionChecked here.0 (check_connection parts here)
  unfolding check_connection
  check_connection-ConnectionChecked (s, w) =
      let lost =
        warning parts 102 (codes "Connection lost; attempting reconnect")
          (set_state parts reconnecting (s, w)) in
      let facts = reconnect-facts parts.mqtt_client lost in
      let (ok, (s', w')) = reconnect parts parts.mqtt_client lost in
      let same_auth = ap (λ (r : ConnectivityService W). r.auth_client) facts.0 in
      let same_telemetry = ap (λ (r : ConnectivityService W). r.telemetry_manager) facts.0 in
      elim (Bool-cases (is_down parts parts.mqtt_client w)) [
        | inr up ↦ simp up (
            inl (
              refl,
              record {
                client = is_down-ne-none parts.mqtt_client w up;
                auth = refl;
                telemetry = refl;
                state = inl refl;
              },
            ))
        | inl down ↦ rw down (elim (Bool-cases ok) [
          | inl again ↦ rw again (
              inl (
                refl,
                record {
                  client = facts.1 again;
                  auth = same_auth;
                  telemetry = same_telemetry;
                  state = inr refl;
                },
              ))
          | inr failed ↦ rw failed (inr (refl, record { state = refl; telemetry = same_telemetry }))
        ])
      ]

  -- Where an iteration stands when it publishes: there is an MQTT client, an authentication client
  -- holds a token, and the state is as before, `publishing` or `connected`.
  pub record Ready (before ready : Here parts) : Type 0 where
    pub client : parts.mqtt_client ≢ none
    pub token : TokenFilled ready.0
    pub telemetry : ready.0.telemetry_manager ≡ before.0.telemetry_manager
    pub state :
        (ready.0.state ≡ before.0.state)
        ⊎ (ready.0.state ≡ publishing)
        ⊎ (ready.0.state ≡ connected)

  pub data Iteration (before : Here parts) : Here parts → Type 0 where
    published :
        (ready : Here parts) → Ready before ready → Iteration before (publish_step parts ready)
    skipped : (after : Here parts) → Skipped before.0 after.0 → Iteration before after

  Ready-of : (before s t : Here parts) → Passed before.0 s.0 → Dialled s.0 t.0 → Ready before t
  Ready-of before s t p d = record {
    client = d.client;
    token = subst HoldsToken (sym d.auth) p.token;
    telemetry = d.telemetry ∙ p.telemetry;
    state = ground (arith, p.state, d.state);
  }

  -- Every iteration of runLoop either publishes a sample where it is ready, or ends with the state
  -- disconnected and the telemetry manager as it was. It is ready only with an MQTT client, and
  -- with a token that is not empty if there is an authentication client; then the state is as
  -- before, publishing or connected.
  pub round_guarded : (here : Here parts) → Iteration here (round parts here)
  unfolding round
  round_guarded here =
      let (authorised, here1) = check_token parts here in
      let (up, here2) = check_connection parts here1 in
      elim (check_token-TokenChecked here) [
        | inr (stale, s) ↦ rw stale (skipped here1 s)
        | inl (ok, p) ↦ rw ok (elim (check_connection-ConnectionChecked here1) [
          | inl (ready, d) ↦ rw ready (published here2 (Ready-of here here1 here2 p d))
          | inr (down, s) ↦
              rw down
                (skipped here2 (record { state = s.state; telemetry = s.telemetry ∙ p.telemetry }))
        ])
      ]

  publish_with-true :
      (manager : TelemetryManager) (here : Here parts)
      → (publish_with parts (some manager) here).0 ≡ true
  unfolding publish_with
  publish_with-true manager (s, w) =
      publish_sample-true parts.platform parts.doubles parts.manager_client (manager, w)

  -- With a telemetry manager the warning of a queued sample is never logged: the publishing step is
  -- publishTelemetry and the pause.
  pub publish_step-quiet :
      (here : Here parts) (manager : TelemetryManager)
      → here.0.telemetry_manager ≡ some manager
      → publish_step parts here
        ≡ sleep_seconds parts publish_interval_sec (publish_telemetry parts here).1
  unfolding publish_step publish_telemetry
  publish_step-quiet (s, w) manager has = simp (has, publish_with-true)
