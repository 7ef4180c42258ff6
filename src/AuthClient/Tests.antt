-- ===== src/AuthClient/Tests.antt =====
-- src/AuthClient/auth_client.cpp at concrete inputs, those of tests/connectivity_tests.cpp. The
-- world is the clock.
use connected_vehicle_platfo.Prelude.{
  arith, ◌⊎◌, ◌≡◌, ◌↔◌, refl, false, true, some, [], ℤ, pos, ◌+ℤ◌, scale, to_int64, ◌<ℤ◌, codes,
}
use connected_vehicle_platfo.Platform.{Platform}
use connected_vehicle_platfo.AuthClient.{
  IAuthBackend, AuthClient, nanoseconds_per_second, authenticate, is_token_valid,
}
use connected_vehicle_platfo.AuthClient.Validity.{IsRejected, authenticate_outcome}

abbrev clock : Platform ℤ
clock = record {
  steady_now = λ w. (w, w);
  sleep_for = λ ms w. w;
  local_time = λ format w. ([], w);
  write_stdout = λ text w. w;
  write_stderr = λ text w. w;
  create_directories = λ path w. w;
  open_append = λ path w. (false, w);
  write_file = λ path text w. w;
}

abbrev granting : IAuthBackend ℤ
granting = record {
  authenticate = λ request w. (record { access_token = codes "jwt-token"; expires_in = pos 1 }, w);
}

abbrev refusing : IAuthBackend ℤ
refusing = record {
  authenticate = λ request w. (record { access_token = []; expires_in = pos 0 }, w);
}

abbrev client : IAuthBackend ℤ → AuthClient ℤ
client backend = record {
  backend = some backend;
  vehicle_id = codes "ECU_001";
  vehicle_secret = codes "secret123";
  access_token = [];
  expires_at = pos 0;
}

abbrev authenticated : AuthClient ℤ
authenticated = record (client granting) {
  access_token = codes "jwt-token";
  expires_at = pos 1_000_000_005;
}

authenticate_test : authenticate clock (client granting, pos 5) ≡ (true, (authenticated, pos 5))
unfolding authenticate ◌+ℤ◌ scale to_int64
authenticate_test = refl

expiry_test : (is_token_valid clock (authenticated, pos 2_000_000_000)).0 ≡ false
unfolding is_token_valid
expiry_test = refl

authenticate_outcome_example :
    let (ok, (c, w)) = authenticate clock (client granting, pos 5) in
    ((false ≡ false)
      × ((ok ≡ true)
          × (c.access_token ≡ codes "jwt-token")
          × ((v : ℤ)
              → ((is_token_valid clock (c, v)).0 ≡ true)
                ↔ (v <ℤ pos 5 +ℤ scale nanoseconds_per_second (pos 1)))))
    ⊎ ((false ≡ true) × ((ok ≡ false) × IsRejected clock c))
unfolding ◌+ℤ◌ scale
authenticate_outcome_example =
    authenticate_outcome clock (client granting) (pos 5) granting refl
      (λ filled. (omega arith, omega arith))
