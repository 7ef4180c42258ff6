-- ===== src/AuthSession/Retry.antt =====
-- src/auth/auth_session.cpp: how often the provider is asked, and with what result. The provider's
-- answers are a stream; the world counts the calls and the time slept.
use connected_vehicle_platfo.Prelude.{
  ℕ, zero, suc, ◌+◌, ◌*◌, ◌≤◌, ◌<◌, ◌≡◌, refl, ◌⊎◌, inl, inr, ◌∙◌, ap, not, Bool, Bool-cases, subst,
  ℕ_discrete, false, true, Option, none, some, [], ℤ, pos, negsuc, ◌≤ℤ◌, ltb_ℤ, Text, is_empty,
  Action, arith,
}
use connected_vehicle_platfo.Platform.{Platform}
use connected_vehicle_platfo.AuthSession.{
  AuthSession, retry_delay_ms, retry_loop, authenticate, pause,
}

pub record Calls : Type 0 where
  pub made : ℕ
  pub slept_ms : ℕ

-- A platform whose sleep is counted. The session uses nothing else of it.
abbrev pub counting : Platform Calls
counting = record {
  steady_now = λ w. (pos 0, w);
  sleep_for = λ ms w. record w { slept_ms = w.slept_ms + ms };
  local_time = λ format w. ([], w);
  write_stdout = λ text w. w;
  write_stderr = λ text w. w;
  create_directories = λ path w. w;
  open_append = λ path w. (false, w);
  write_file = λ path text w. w;
}

-- A provider that answers by the number of the call.
abbrev pub provider : (ℕ → Text) → Action Calls Text
provider answers w = (answers w.made, record w { made = w.made + 1 })

module _ {W : Type 0} (platform : Platform W) (ask : Action W Text) (max : ℕ) where
  open platform use {sleep_for}

  -- The loop ends at a token that is not empty, and where no attempts are left.
  retry_loop-ends :
      (fuel n : ℕ) (t : Text) (w : W)
      → (is_empty t ≡ false) ⊎ (max ≤ n)
      → retry_loop platform fuel ask (pos max) t n w ≡ (t, w)
  unfolding retry_loop
  retry_loop-ends zero n t w h = refl
  retry_loop-ends (suc fuel) n t w (inl filled) = rw filled
  retry_loop-ends (suc fuel) n t w (inr spent) = ground arith

  -- Otherwise, with attempts left, it asks once more, and pauses if that was not the last attempt.
  retry_loop-empty :
      (fuel n : ℕ) (t : Text) (w : W)
      → is_empty t ≡ true
      → n < max
      → retry_loop platform (suc fuel) ask (pos max) t n w
        ≡ retry_loop platform fuel ask
            (pos max)
            (ask w).0
            (n + 1)
            (pause platform (ask w).0 (n + 1) (pos max) (ask w).1)
  unfolding retry_loop
  retry_loop-empty fuel n t w h left = rw (h, left_test)
    where
      left_test : ltb_ℤ (pos n) (pos max) ≡ true
      left_test = ground arith

slept_path :
    {t : Text} {a b : ℕ} (m : ℕ)
    → a ≡ b
    → Path
        (Text × Calls)
        (t, record { made = m + 1; slept_ms = a })
        (t, record { made = m + 1; slept_ms = b })
slept_path {t} m e = ap (λ (x : ℕ). (t, record { made = m + 1; slept_ms = x })) e

module _ (answers : ℕ → Text) (max : ℕ) where
  abbrev loop : ℕ → Text → Calls → Text × Calls
  loop fuel t w = retry_loop counting fuel (provider answers) (pos max) t w.made w

  pause-ends :
      (t : Text) (n : ℕ) (w : Calls)
      → (is_empty t ≡ false) ⊎ (max ≤ n)
      → pause counting t n (pos max) w ≡ w
  unfolding pause
  pause-ends t n w h = ground arith

  pause-empty :
      (t : Text) (n : ℕ) (w : Calls)
      → is_empty t ≡ true
      → n < max
      → pause counting t n (pos max) w ≡ record w { slept_ms = w.slept_ms + retry_delay_ms }
  unfolding pause
  pause-empty t n w h left = ground arith

  -- The answers from call `n` on are empty up to call `m`, and that one is not or is the last.
  loop-stops :
      (k fuel n m slept : ℕ) (t : Text)
      → n + k ≡ m
      → is_empty t ≡ true
      → ((i : ℕ) → n ≤ i → i < m → is_empty (answers i) ≡ true)
      → (is_empty (answers m) ≡ false) ⊎ (max ≤ m + 1)
      → m < max
      → max ≤ n + fuel
      → loop fuel t (record { made = n; slept_ms = slept })
        ≡ (answers m, record { made = m + 1; slept_ms = slept + k * retry_delay_ms })
  loop-stops k zero n m slept t at asked empty stop below enough = absurd (omega arith)
  loop-stops zero (suc fuel) n m slept t at asked empty stop below enough =
      let e : n ≡ m = omega arith in
      let w : Calls = record { made = m + 1; slept_ms = slept } in
      rw e (
        retry_loop-empty counting (provider answers) max fuel m t _ asked below
        ∙ rw (pause-ends (answers m) (m + 1) w stop) (
            retry_loop-ends counting (provider answers) max fuel (m + 1) (answers m) w stop
            ∙ slept_path m (omega arith)))
  loop-stops (suc k) (suc fuel) n m slept t at asked empty stop below enough =
      let w : Calls = record { made = n + 1; slept_ms = slept } in
      let silent : is_empty (answers n) ≡ true = empty n (omega arith) (omega arith) in
      retry_loop-empty counting (provider answers) max fuel n t _ asked (omega arith)
      ∙ rw (pause-empty (answers n) (n + 1) w silent (omega arith)) (
          loop-stops k fuel (n + 1) m (slept + retry_delay_ms) (answers n) (omega arith) silent
            (λ i above. empty i (omega arith)) stop below (omega arith)
          ∙ slept_path m (omega arith))

abbrev pub fresh : Calls
fresh = record { made = 0; slept_ms = 0 }

-- Given an empty token and a provider whose first m answers are empty and whose next one is not,
-- with m below the bound, authenticate succeeds with that answer after m + 1 calls, and has slept m
-- times.
pub authenticate_retries :
    (answers : ℕ → Text) (max m : ℕ) (s : AuthSession)
    → ((i : ℕ) → i < m → is_empty (answers i) ≡ true)
    → is_empty (answers m) ≡ false
    → m < max
    → authenticate counting [] (some (provider answers)) (pos max) (s, fresh) ≡ (
      true,
      (
        record s { token = answers m; authenticated = true },
        record { made = m + 1; slept_ms = m * retry_delay_ms },
      ),
    )
unfolding authenticate
authenticate_retries answers max m s empty filled below =
    rw
      (
        loop-stops answers max m max 0 m 0 [] (omega arith) refl (λ i _. empty i) (inl filled) below
            (omega arith),
        filled,
      )
      (ground arith)

-- When the first m + 1 answers of the provider are empty and that is the bound, authenticate fails
-- after exactly that many calls, with a pause between any two of them, and the session holds no
-- token.
pub authenticate_gives_up :
    (answers : ℕ → Text) (m : ℕ) (s : AuthSession)
    → ((i : ℕ) → i ≤ m → is_empty (answers i) ≡ true)
    → let (ok, (s', w)) =
        authenticate counting [] (some (provider answers)) (pos (m + 1)) (s, fresh) in
      (ok ≡ false)
      × (s'.authenticated ≡ false)
      × (s'.token ≡ [])
      × (w ≡ record { made = m + 1; slept_ms = m * retry_delay_ms })
unfolding authenticate
authenticate_gives_up answers m s empty =
    let silent : is_empty (answers m) ≡ true = empty m (omega arith) in
    let stopped =
      loop-stops answers (m + 1) m (m + 1) 0 m 0 [] (omega arith) refl
        (λ i _ below. empty i (omega arith)) (inr (omega arith)) (omega arith) (omega arith) in
    rw stopped
      (ground (arith, silent), ground (arith, silent), ground (arith, silent), ground arith)

-- The first answer of those before call `n` that is not empty, if there is one.
first_filled :
    (answers : ℕ → Text) (n : ℕ)
    → ((m : ℕ) × (m < n)
        × ((i : ℕ) → i < m → is_empty (answers i) ≡ true)
        × (is_empty (answers m) ≡ false))
      ⊎ ((i : ℕ) → i < n → is_empty (answers i) ≡ true)
first_filled answers zero = inr (λ i below. absurd (omega arith))
first_filled answers (suc n) = elim (first_filled answers n) [
  | inl (m, below, empty, filled) ↦ inl (m, omega arith, empty, filled)
  | inr empty ↦ elim (Bool-cases (is_empty (answers n))) [
    | inr filled ↦ inl (n, omega arith, empty, filled)
    | inl last ↦ inr (λ i below. elim (ℕ_discrete n i) [
      | yes same ↦ subst (λ j. is_empty (answers j) ≡ true) same last
      | no other ↦ empty i (omega arith)
    ])
  ]
]

-- Given an empty token, a provider and a bound above 0, authenticate ends in one of two ways. If
-- one of the provider's answers within the bound is not empty, it succeeds with the first such
-- answer, after exactly the calls up to that one and a pause between any two of them. If all
-- answers within the bound are empty, it fails after exactly as many calls as the bound, with a
-- pause between any two of them, and the session holds no token.
pub authenticate_ends :
    (answers : ℕ → Text) (max : ℕ) (s : AuthSession)
    → let (ok, (s', w)) =
        authenticate counting [] (some (provider answers)) (pos (max + 1)) (s, fresh) in
      ((m : ℕ) × (m ≤ max)
        × ((i : ℕ) → i < m → is_empty (answers i) ≡ true)
        × (is_empty (answers m) ≡ false)
        × (ok ≡ true)
        × (s' ≡ record s { token = answers m; authenticated = true })
        × (w ≡ record { made = m + 1; slept_ms = m * retry_delay_ms }))
      ⊎ (((i : ℕ) → i ≤ max → is_empty (answers i) ≡ true)
          × (ok ≡ false)
          × (s'.authenticated ≡ false)
          × (s'.token ≡ [])
          × (w ≡ record { made = max + 1; slept_ms = max * retry_delay_ms }))
authenticate_ends answers max s = elim (first_filled answers (max + 1)) [
  | inl (m, below, empty, filled) ↦
      let done = authenticate_retries answers (max + 1) m s empty filled below in
      inl (
        m,
        omega arith,
        empty,
        filled,
        ap (λ (r : Bool × (AuthSession × Calls)). r.0) done,
        ap (λ (r : Bool × (AuthSession × Calls)). r.1.0) done,
        ap (λ (r : Bool × (AuthSession × Calls)). r.1.1) done,
      )
  | inr empty ↦
      let silent : (i : ℕ) → i ≤ max → is_empty (answers i) ≡ true =
        λ i below. empty i (omega arith) in
      let (failed, flag, token, calls) = authenticate_gives_up answers max s silent in
      inr (silent, failed, flag, token, calls)
]

-- Given a token that is not empty, no provider, or a bound of at most 0, AuthSession::authenticate
-- asks nothing, leaves the world as it was, and succeeds exactly if the given token is not empty.
pub authenticate_unasked :
    {W : Type 0} (platform : Platform W) (token : Text) (token_provider : Option (Action W Text))
    (max_retries : ℤ) (s : AuthSession) (w : W)
    → (is_empty token ≡ false) ⊎ (token_provider ≡ none) ⊎ (max_retries ≤ℤ pos 0)
    → authenticate platform token token_provider max_retries (s, w) ≡ (
      not (is_empty token),
      (record s { token = token; authenticated = not (is_empty token) }, w),
    )
unfolding authenticate
authenticate_unasked platform token none max_retries s w h = refl
authenticate_unasked platform token (some ask) (pos max) s w h =
    let stop : (is_empty token ≡ false) ⊎ (max ≤ 0) = ground arith in
    rw (retry_loop-ends platform ask max max 0 token w stop)
authenticate_unasked platform token (some ask) (negsuc n) s w h = refl
