-- ===== src/ConnectivityService/Connected.antt =====
-- src/ConnectivityService/connectivity_service.cpp: what holds of the world once `start` has
-- succeeded.
use connected_vehicle_platfo.Prelude.{
  ◌≡◌, refl, inl, inr, Bool, true, false, Option, none, some, Text, codes, Bool-cases,
}
use connected_vehicle_platfo.AuthClient
use connected_vehicle_platfo.AuthClient.{AuthClient}
use connected_vehicle_platfo.Logger.{LogLevel, SourceLocation, log}
use connected_vehicle_platfo.MqttClient.Interface.{IMqttClient}
use connected_vehicle_platfo.ConnectivityService.{
  Parts, Here, starting, authenticating, set_state, info, start, start_session, start_transport,
  authenticate, connect, give_up,
}

-- What logging and an authentication keep before the connection, what a connection attempt that
-- succeeds makes of it, and what logging keeps from then on.
pub record Connecting {W D : Type 0} (parts : Parts W D) (client : AuthClient W)
    (Before After : W → Type 0) : Type 0 where
  pub logs_before :
      (level : LogLevel) (message : Text) (location : SourceLocation) (w : W)
      → Before w
      → Before (log parts.platform parts.logger level message location w)
  pub authenticates :
      (w : W) → Before w → Before (AuthClient.authenticate parts.platform (client, w)).1.1
  pub connects :
      (transport : IMqttClient W) (w : W)
      → parts.mqtt_client ≡ some transport
      → Before w
      → (transport.connect w).0 ≡ true
      → After (transport.connect w).1
  pub logs_after :
      (level : LogLevel) (message : Text) (location : SourceLocation) (w : W)
      → After w
      → After (log parts.platform parts.logger level message location w)

module _ {W D : Type 0} (parts : Parts W D) {client : AuthClient W} {Before After : W → Type 0}
    (connecting : Connecting parts client Before After) where
  connect-After :
      (transport : Option (IMqttClient W)) (here : Here parts)
      → parts.mqtt_client ≡ transport
      → Before here.1
      → (connect parts transport here).0 ≡ true
      → After (connect parts transport here).1.1
  unfolding connect
  connect-After none here e before up = cc
  connect-After (some transport) (s, w) e before up = connecting.connects transport w e before up

  -- A call that succeeds makes its world.
  abbrev EndsAfter : Bool × Here parts → Type 0
  EndsAfter (ok, (s, w)) = ok ≡ true → After w

  start_transport-EndsAfter :
      (here : Here parts) → Before here.1 → EndsAfter (start_transport parts (λ now. now) here)
  unfolding start_transport give_up
  start_transport-EndsAfter (s, w) before =
      let dialled =
        info parts 39 (codes "Authentication succeeded") (set_state parts authenticating (s, w)) in
      let before' = connecting.logs_before _ _ _ _ before in
      elim (Bool-cases (connect parts parts.mqtt_client dialled).0) [
        | inl up ↦ rw up (λ e.
            connecting.logs_after _ _ _ _ (connect-After parts.mqtt_client dialled refl before' up))
        | inr down ↦ rw down (λ e. cc)
      ]

  start_session-EndsAfter :
      (here : Here parts)
      → here.0.auth_client ≡ some client
      → Before here.1
      → EndsAfter (start_session parts (λ now. now) here)
  unfolding start_session authenticate give_up
  start_session-EndsAfter (s, w) has before =
      let asked =
        info parts 29 (codes "Starting connectivity service") (set_state parts starting (s, w)) in
      let before' = connecting.authenticates asked.1 (connecting.logs_before _ _ _ _ before) in
      rw has (elim (Bool-cases (authenticate parts (some client) asked).0) [
        | inl good ↦ rw good (start_transport-EndsAfter _ before')
        | inr bad ↦ rw bad (λ e. cc)
      ])

  -- After a start that succeeds.
  pub start-After :
      (here : Here parts)
      → here.0.running ≡ false
      → here.0.auth_client ≡ some client
      → Before here.1
      → (start parts here).0 ≡ true
      → After (start parts here).1.1
  unfolding start
  start-After (s, w) idle has before =
      rw idle (start_session-EndsAfter (record s { running = true }, w) has before)
