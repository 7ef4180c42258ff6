-- ===== src/AuthClient/Validity.antt =====
-- src/AuthClient/auth_client.cpp: for how long a token is accepted, and what a failure leaves.
use connected_vehicle_platfo.Prelude.{
  ◌≡◌, ◌⊎◌, inl, inr, Bool-cases, refl, ap, ◌∙◌, ◌↔◌, false, true, some, ◌+ℤ◌, scale, IsInt64,
  to_int64, to_int64-IsInt64, ◌<ℤ◌, is_empty, arith,
}
use connected_vehicle_platfo.Platform.{Platform}
use connected_vehicle_platfo.AuthClient.{
  AuthRequest, AuthResponse, IAuthBackend, AuthClient, nanoseconds_per_second, clear_token,
  authenticate, is_token_valid,
}

-- What `authenticate` sends to the backend.
abbrev pub request_of : {W : Type 0} → AuthClient W → AuthRequest
request_of c = record { vehicle_id = c.vehicle_id; vehicle_secret = c.vehicle_secret }

module _ {W : Type 0} (platform : Platform W) where
  open platform use {steady_now}

  -- The token is accepted in no world whatsoever.
  abbrev pub IsRejected : AuthClient W → Type 0
  IsRejected c = (v : W) → (is_token_valid platform (c, v)).0 ≡ false

  -- Asking changes nothing of the client.
  pub is_token_valid-same : (c : AuthClient W) (w : W) → (is_token_valid platform (c, w)).1.0 ≡ c
  unfolding is_token_valid
  is_token_valid-same c w = ground arith

  -- The granted time, and the time of the answer with it, are times that the clock can count.
  abbrev pub IsInRange : AuthResponse → W → Type 0
  IsInRange response w =
      let granted = scale nanoseconds_per_second response.expires_in in
      IsInt64 granted × IsInt64 ((steady_now w).0 +ℤ granted)

  expiry-IsInRange :
      (response : AuthResponse) (w : W)
      → IsInRange response w
      → let granted = scale nanoseconds_per_second response.expires_in in
        to_int64 ((steady_now w).0 +ℤ to_int64 granted) ≡ (steady_now w).0 +ℤ granted
  expiry-IsInRange response w (granted, ends) =
      ap (λ t. to_int64 ((steady_now w).0 +ℤ t)) (to_int64-IsInt64 _ granted)
      ∙ to_int64-IsInt64 _ ends

  -- When the backend answers with a token that is not empty, authenticate succeeds, stores that
  -- token, and, for times that the clock can count, isTokenValid holds from then on in a world
  -- exactly if its clock stands before the time of the answer plus the granted number of seconds.
  pub token_lifetime :
      (c : AuthClient W) (w : W) (backend : IAuthBackend W)
      → c.backend ≡ some backend
      → let (response, w') = backend.authenticate (request_of c) w in
        is_empty response.access_token ≡ false
        → IsInRange response w'
        → let (ok, (c', w'')) = authenticate platform (c, w) in
          (ok ≡ true)
          × (c'.access_token ≡ response.access_token)
          × ((v : W)
              → ((is_token_valid platform (c', v)).0 ≡ true) ↔ (
                  (steady_now v).0
                  <ℤ (steady_now w').0 +ℤ scale nanoseconds_per_second response.expires_in))
  unfolding authenticate is_token_valid
  token_lifetime c w backend some_backend filled fits =
      let (response, w') = backend.authenticate (request_of c) w in
      let ends = expiry-IsInRange response w' fits in
      rw (some_backend, filled, ends) (refl, refl, λ v. (ground arith, ground arith))

  -- When the backend answers with an empty token, authenticate fails and isTokenValid is false of
  -- the client in every world from then on, also if its old token was still good.
  pub refusal_rejects :
      (c : AuthClient W) (w : W) (backend : IAuthBackend W)
      → c.backend ≡ some backend
      → is_empty (backend.authenticate (request_of c) w).0.access_token ≡ true
      → ((authenticate platform (c, w)).0 ≡ false) × IsRejected (authenticate platform (c, w)).1.0
  unfolding authenticate is_token_valid
  refusal_rejects c w backend some_backend refused = (ground arith, λ v. ground arith)

  -- Over a backend, authenticate ends in one of two ways. If the backend answers with a token that
  -- is not empty, it succeeds, stores that token, and from then on isTokenValid holds in a world
  -- exactly if its clock stands before the time of the answer plus the granted number of seconds.
  -- If the token is empty, it fails, and isTokenValid is false of the client in every world from
  -- then on, also if its old token was still good. The granted time of a token that is not empty,
  -- and the time of the answer plus that time, are 64-bit numbers of nanoseconds.
  pub authenticate_outcome :
      (c : AuthClient W) (w : W) (backend : IAuthBackend W)
      → c.backend ≡ some backend
      → let (response, w') = backend.authenticate (request_of c) w in
        (is_empty response.access_token ≡ false → IsInRange response w')
        → let (ok, (c', w'')) = authenticate platform (c, w) in
          ((is_empty response.access_token ≡ false)
            × ((ok ≡ true)
                × (c'.access_token ≡ response.access_token)
                × ((v : W)
                    → ((is_token_valid platform (c', v)).0 ≡ true) ↔ (
                        (steady_now v).0
                        <ℤ (steady_now w').0 +ℤ scale nanoseconds_per_second response.expires_in))))
          ⊎ ((is_empty response.access_token ≡ true) × ((ok ≡ false) × IsRejected c'))
  authenticate_outcome c w backend some_backend fits =
      elim (Bool-cases (is_empty (backend.authenticate (request_of c) w).0.access_token)) [
        | inl empty ↦ inr (empty, refusal_rejects c w backend some_backend empty)
        | inr filled ↦ inl (filled, token_lifetime c w backend some_backend filled (fits filled))
      ]

  -- After clearToken isTokenValid is false of the client in every world.
  pub clear_token-IsRejected : (s : AuthClient W × W) → IsRejected (clear_token platform s).1.0
  unfolding clear_token is_token_valid
  clear_token-IsRejected s v = refl

  pub authenticate-filled :
      (s : AuthClient W × W)
      → (authenticate platform s).0 ≡ true
      → is_empty (authenticate platform s).1.0.access_token ≡ false
  unfolding authenticate
  authenticate-filled (c, w) h = ground arith
