-- ===== src/AuthSession.antt =====
-- include/connected_vehicle_platform/auth_session.hpp and src/auth/auth_session.cpp: a session that
-- asks a provider for a token, a bounded number of times.
pub mod Retry
mod Tests
use connected_vehicle_platfo.Prelude.{
  ℕ, zero, suc, ◌+◌, Bool, false, true, not, ◌&&◌, Option, none, some, [], ℤ, pos, pos_part, ltb_ℤ,
  Text, codes, is_empty, Action, if◌then◌else◌,
}
use connected_vehicle_platfo.Platform.{Platform}

abbrev pub default_tenant : Text
default_tenant = codes "vehicle"

abbrev pub default_max_retries : ℤ
default_max_retries = pos 3

abbrev pub retry_delay_ms : ℕ
retry_delay_ms = 200

pub record AuthSession : Type 0 where
  pub tenant : Text
  pub token : Text
  pub authenticated : Bool

unfoldable pub make : Text → AuthSession
make tenant = record { tenant = tenant; token = []; authenticated = false }

module _ {W : Type 0} (platform : Platform W) where
  open platform use {sleep_for}

  -- The pause between two attempts, after an attempt that gave no token.
  pause : Text → ℕ → ℤ → W → W
  pause token attempts max_retries w =
      if is_empty token && ltb_ℤ (pos attempts) max_retries then sleep_for retry_delay_ms w else w

  -- The `while` loop, on fuel: the state is `token_`, `attempts` and the world. It ends by its test
  -- with `pos_part max_retries` of fuel, since `attempts` starts at 0.
  retry_loop : ℕ → Action W Text → ℤ → Text → ℕ → Action W Text
  unfolding pause
  retry_loop zero token_provider max_retries token attempts w = (token, w)
  retry_loop (suc fuel) token_provider max_retries token attempts w =
      let (token', w') = token_provider w in
      let again =
        retry_loop fuel token_provider max_retries token' (attempts + 1)
          (pause token' (attempts + 1) max_retries w') in
      if is_empty token && ltb_ℤ (pos attempts) max_retries then again else (token, w)

  -- A null `token_provider` is `none`: the loop's test fails at once.
  ask_provider : Option (Action W Text) → ℤ → Text → Action W Text
  unfolding retry_loop
  ask_provider none max_retries token w = (token, w)
  ask_provider (some token_provider) max_retries token w =
      retry_loop (pos_part max_retries) token_provider max_retries token 0 w

  unfoldable pub authenticate : Text → Option (Action W Text) → ℤ → Action (AuthSession × W) Bool
  unfolding ask_provider
  authenticate token token_provider max_retries (s, w) =
      let (token', w') = ask_provider token_provider max_retries token w in
      let ok = not (is_empty token') in (ok, (record s { token = token'; authenticated = ok }, w'))

abbrev pub is_authenticated : AuthSession → Bool
is_authenticated s = s.authenticated
