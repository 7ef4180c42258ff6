-- ===== src/AuthClient.antt =====
-- include/connected_vehicle_platform/auth_client.hpp and src/AuthClient/auth_client.cpp: the token
-- of a vehicle and the time until which it is good. A time point is a number of nanoseconds.
pub mod Validity
mod Tests
use connected_vehicle_platfo.Prelude.{
  ℕ, Bool, false, true, Option, none, some, [], ℤ, ◌+ℤ◌, scale, to_int64, ltb_ℤ, Text, is_empty,
  Action, if◌then◌else◌,
}
use connected_vehicle_platfo.Platform.{Platform}

pub record AuthRequest : Type 0 where
  pub vehicle_id : Text
  pub vehicle_secret : Text

-- `expires_in` is in seconds.
pub record AuthResponse : Type 0 where
  pub access_token : Text
  pub expires_in : ℤ

-- The cloud's side, injected by the caller; its state is part of the world.
pub record IAuthBackend (W : Type 0) : Type 0 where
  pub authenticate : AuthRequest → Action W AuthResponse

-- A null `backend_` is `none`.
pub record AuthClient (W : Type 0) : Type 0 where
  pub backend : Option (IAuthBackend W)
  pub vehicle_id : Text
  pub vehicle_secret : Text
  pub access_token : Text
  pub expires_at : ℤ

abbrev pub nanoseconds_per_second : ℕ
nanoseconds_per_second = 1_000_000_000

module _ {W : Type 0} (platform : Platform W) where
  open platform use {steady_now}

  unfoldable pub make : Option (IAuthBackend W) → Text → Text → Action W (AuthClient W)
  make backend vehicle_id vehicle_secret w =
      let (now, w') = steady_now w in
      (
        record {
          backend = backend;
          vehicle_id = vehicle_id;
          vehicle_secret = vehicle_secret;
          access_token = [];
          expires_at = now;
        },
        w',
      )

  -- `access_token_.clear()` and `expires_at_ = now()`.
  unfoldable pub clear_token : Action (AuthClient W × W) (Unit {0})
  clear_token (c, w) =
      let (now, w') = steady_now w in (tt, (record c { access_token = []; expires_at = now }, w'))

  -- The clock counts nanoseconds in 64 bits. The signed overflow of a long time is undefined in C++;
  -- here it wraps around.
  store_token : AuthResponse → Action (AuthClient W × W) (Unit {0})
  store_token response (c, w) =
      let (now, w') = steady_now w in
      (
        tt,
        (
          record c {
            access_token = response.access_token;
            expires_at =
                to_int64 (now +ℤ to_int64 (scale nanoseconds_per_second response.expires_in));
          },
          w',
        ),
      )

  -- The rest of `authenticate`, once the backend has answered.
  accept : AuthResponse → Action (AuthClient W × W) Bool
  unfolding clear_token store_token
  accept response s =
      if is_empty response.access_token
      then (false, (clear_token s).1)
      else (true, (store_token response s).1)

  ask : Option (IAuthBackend W) → Action (AuthClient W × W) Bool
  unfolding accept
  ask none s = (false, s)
  ask (some backend) (c, w) =
      let (response, w') =
        backend.authenticate
          (record { vehicle_id = c.vehicle_id; vehicle_secret = c.vehicle_secret }) w in
      accept response (c, w')

  unfoldable pub authenticate : Action (AuthClient W × W) Bool
  unfolding ask
  authenticate (c, w) = ask c.backend (c, w)

  unfoldable pub refresh_token : Action (AuthClient W × W) Bool
  unfolding authenticate
  refresh_token s = authenticate s

  -- The clock is read only for a token that is not empty.
  unfoldable pub is_token_valid : Action (AuthClient W × W) Bool
  is_token_valid (c, w) =
      if is_empty c.access_token
      then (false, (c, w))
      else let (now, w') = steady_now w in (ltb_ℤ now c.expires_at, (c, w'))

-- `token()`.
abbrev pub token : {W : Type 0} → AuthClient W → Text
token c = c.access_token
