-- ===== src/ConnectivityService/Early.antt =====
-- src/ConnectivityService/connectivity_service.cpp: `start` whose worker comes to its loop before
-- Publishing is stored.
use connected_vehicle_platfo.Prelude.{◌≡◌, refl, inl, inr, Bool, codes, Bool-cases}
use connected_vehicle_platfo.ConnectivityService.{
  starting, authenticating, Parts, Here, set_state, info, authenticate, connect, start_transport,
  start_session, start_with, start,
}
use connected_vehicle_platfo.ConnectivityService.Kept.{Keeps}

module _ {W D : Type 0} (parts : Parts W D) (meanwhile : Here parts → Here parts)
    (calm : (now : Here parts) → Keeps parts now (meanwhile now)) where
  -- The same answer, and the same shared fields.
  abbrev pub Agree : Bool × Here parts → Bool × Here parts → Type 0
  Agree (ok, (s, w)) (ok', (s', w')) =
      (ok ≡ ok') × (s.state ≡ s'.state) × (s.running ≡ s'.running) × (s.worker ≡ s'.worker)

  start_transport-Agree :
      (here : Here parts)
      → Agree (start_transport parts meanwhile here) (start_transport parts (λ now. now) here)
  unfolding start_transport
  start_transport-Agree here =
      let dialled =
        info parts 39 (codes "Authentication succeeded") (set_state parts authenticating here) in
      elim (Bool-cases (connect parts parts.mqtt_client dialled).0) [
        | inl up ↦ let kept = calm _ in rw up (refl, refl, kept.running, kept.worker)
        | inr down ↦ rw down (refl, refl, refl, refl)
      ]

  start_session-Agree :
      (here : Here parts)
      → Agree (start_session parts meanwhile here) (start_session parts (λ now. now) here)
  unfolding start_session
  start_session-Agree (s, w) =
      let asked =
        info parts 29 (codes "Starting connectivity service") (set_state parts starting (s, w)) in
      elim (Bool-cases (authenticate parts s.auth_client asked).0) [
        | inl good ↦ rw good (start_transport-Agree _)
        | inr bad ↦ rw bad (refl, refl, refl, refl)
      ]

  pub start_with-Agree :
      (here : Here parts) → Agree (start_with parts meanwhile here) (start parts here)
  unfolding start
  start_with-Agree (s, w) = elim (Bool-cases s.running) [
    | inl runs ↦ rw runs (refl, refl, refl, refl)
    | inr idle ↦ rw idle (start_session-Agree _)
  ]
