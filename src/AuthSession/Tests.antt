-- ===== src/AuthSession/Tests.antt =====
-- src/auth/auth_session.cpp at concrete inputs, those of tests/adaptive_autosar_tests.cpp.
use connected_vehicle_platfo.Prelude.{
  ℕ, zero, suc, ◌≡◌, ◌<◌, ◌+◌, ◌*◌, ◌⊎◌, refl, ◌≤◌, false, true, some, [], pos, Text, codes,
  is_empty,
}
use connected_vehicle_platfo.AuthSession.{AuthSession, make, authenticate}
use connected_vehicle_platfo.AuthSession.Retry.{counting, provider, authenticate_ends, fresh}

abbrev session : AuthSession
session = record { tenant = codes "test-tenant"; token = []; authenticated = false }

make_test : make (codes "test-tenant") ≡ session
unfolding make
make_test = refl

-- Two empty answers, then a token.
abbrev third_time : ℕ → Text
third_time zero = []
third_time (suc zero) = []
third_time (suc (suc n)) = codes "provided-token-2"

authenticate_ends_example :
    let (ok, (s, w)) =
      authenticate counting [] (some (provider third_time)) (pos 2) (session, fresh) in
    ((m : ℕ) × (m ≤ 1)
      × ((i : ℕ) → i < m → is_empty (third_time i) ≡ true)
      × (is_empty (third_time m) ≡ false)
      × (ok ≡ true)
      × (s ≡ record session { token = third_time m; authenticated = true })
      × (w ≡ record { made = m + 1; slept_ms = m * 200 }))
    ⊎ (((i : ℕ) → i ≤ 1 → is_empty (third_time i) ≡ true)
        × (ok ≡ false)
        × (s.authenticated ≡ false)
        × (s.token ≡ [])
        × (w ≡ record { made = 2; slept_ms = 200 }))
authenticate_ends_example = authenticate_ends third_time 1 session
