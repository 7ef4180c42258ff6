-- ===== src/ConnectivityService/Threads/Callers/Exclusive.antt =====
-- src/ConnectivityService/connectivity_service.cpp: of any number of callers at most one is inside a
-- call, if no start overlaps a stop.
use connected_vehicle_platfo.Prelude.{
  update, update_here, update_there, ℕ, ◌≡◌, refl, sym, subst, ◌≢◌, ◌⊎◌, inl, inr, Bool, ◌∙◌,
  ℕ_discrete,
}
use connected_vehicle_platfo.ConnectivityService.{ServiceState}
use connected_vehicle_platfo.ConnectivityService.Threads.{
  Owner, idle, Worker, Threads, threads, StartStep, finds_running, sets_running, StopStep,
  finds_stopped, clears_running, WorkerStep, enters, sees_request, stores, comes_round, returns,
}
use connected_vehicle_platfo.ConnectivityService.Threads.Safety.{
  IsSafe, rests, runs, has_begun, asks, dials, fails, spawns_next, has_spawned, stops, waits,
  has_joined, start-IsSafe, stop-IsSafe, worker-IsSafe,
}
use connected_vehicle_platfo.ConnectivityService.Threads.Callers.{
  IsInStart, in_begun, in_asking, in_dialling, in_failing, in_spawning, in_spawned, IsInStop,
  in_stopping, in_joining, in_joined, Crowd, crowd, CrowdStep, one_starts, one_stops, worker_moves,
  new_crowd, CrowdReaches, gathers, goes_on,
}

-- All callers but one are outside, and with that one as the owner the fields and the worker are as
-- for a single owner.
pub data IsExclusive : Crowd → Type 0 where
  exclusive :
      {s : ServiceState} {r : Bool} {f : ℕ → Owner} {w : Worker} {q : Bool} (i : ℕ)
      → ((k : ℕ) → i ≢ k → f k ≡ idle)
      → IsSafe (threads s r (f i) w q)
      → IsExclusive (crowd s r f w q)

-- The worker's steps do not depend on where an owner stands.
pub beside_any :
    {s s' : ServiceState} {r r' : Bool} {o o1 : Owner} {w w' : Worker} {q q' : Bool} (p : Owner)
    → WorkerStep (threads s r o w q) (threads s' r' o1 w' q')
    → WorkerStep (threads s r p w q) (threads s' r' p w' q')
beside_any p enters = enters
beside_any p sees_request = sees_request
beside_any p (stores e) = stores e
beside_any p comes_round = comes_round
beside_any p returns = returns

-- A caller that begins `start` while the active one stands at `p`: it is turned away, or the active
-- one is outside.
idle_starts :
    {s s' : ServiceState} {r r' : Bool} {o' p : Owner} {w w' : Worker} {q q' : Bool}
    → StartStep (threads s r idle w q) (threads s' r' o' w' q')
    → ¬ IsInStop p
    → IsSafe (threads s r p w q)
    → (IsSafe (threads s' r' p w' q') × (o' ≡ idle)) ⊎ (p ≡ idle)
idle_starts finds_running phases safe = inl (safe, refl)
idle_starts sets_running phases (rests e) = inr refl
idle_starts sets_running phases (stops a) = absurd (phases in_stopping)
idle_starts sets_running phases (waits h) = absurd (phases in_joining)
idle_starts sets_running phases has_joined = absurd (phases in_joined)

idle_stops :
    {s s' : ServiceState} {r r' : Bool} {o' p : Owner} {w w' : Worker} {q q' : Bool}
    → StopStep (threads s r idle w q) (threads s' r' o' w' q')
    → ¬ IsInStart p
    → IsSafe (threads s r p w q)
    → (IsSafe (threads s' r' p w' q') × (o' ≡ idle)) ⊎ (p ≡ idle)
idle_stops finds_stopped phases safe = inl (safe, refl)
idle_stops clears_running phases (runs a) = inr refl
idle_stops clears_running phases has_begun = absurd (phases in_begun)
idle_stops clears_running phases asks = absurd (phases in_asking)
idle_stops clears_running phases dials = absurd (phases in_dialling)
idle_stops clears_running phases fails = absurd (phases in_failing)
idle_stops clears_running phases spawns_next = absurd (phases in_spawning)
idle_stops clears_running phases (has_spawned a) = absurd (phases in_spawned)

-- Caller `j` moves: either it is the active one from now on, or it stays outside.
becomes_active :
    {s' : ServiceState} {r' : Bool} {w' : Worker} {q' : Bool} (f : ℕ → Owner) (j : ℕ) (o' : Owner)
    → ((k : ℕ) → j ≢ k → f k ≡ idle)
    → IsSafe (threads s' r' o' w' q')
    → IsExclusive (crowd s' r' (update f j o') w' q')
becomes_active {s'} {r'} {w'} {q'} f j o' others safe =
    exclusive j (λ k ne. update_there f j k o' ne ∙ others k ne)
      (subst (λ o. IsSafe (threads s' r' o w' q')) (sym (update_here f j o')) safe)

stays_outside :
    {s' : ServiceState} {r' : Bool} {w' : Worker} {q' : Bool} (f : ℕ → Owner) (i j : ℕ) (o' : Owner)
    → i ≢ j
    → ((k : ℕ) → i ≢ k → f k ≡ idle)
    → o' ≡ idle
    → IsSafe (threads s' r' (f i) w' q')
    → IsExclusive (crowd s' r' (update f j o') w' q')
stays_outside {s'} {r'} {w'} {q'} f i j o' ne others out safe =
    exclusive i
      (λ k ik. elim (ℕ_discrete j k) [
        | yes jk ↦ subst (λ m. update f j o' m ≡ idle) jk (update_here f j o' ∙ out)
        | no jk ↦ update_there f j k o' jk ∙ others k ik
      ])
      (subst (λ o. IsSafe (threads s' r' o w' q')) (sym (update_there f j i o' (λ e. ne (sym e))))
        safe)

pub all_outside :
    {f : ℕ → Owner} {i : ℕ} → ((k : ℕ) → i ≢ k → f k ≡ idle) → f i ≡ idle → (k : ℕ) → f k ≡ idle
all_outside {f} {i} others out k = elim (ℕ_discrete i k) [
  | yes same ↦ subst (λ m. f m ≡ idle) same out
  | no other ↦ others k other
]

-- Steps `R` of a call that does not begin while another caller is at a place of the other call.
module _ (R : Threads → Threads → Type 0) (IsInOther : Owner → Type 0) {s s' : ServiceState}
    {r r' : Bool} {f : ℕ → Owner} {o' : Owner} {w w' : Worker} {q q' : Bool}
    (keeps : (o : Owner)
      → R (threads s r o w q) (threads s' r' o' w' q')
      → IsSafe (threads s r o w q)
      → IsSafe (threads s' r' o' w' q'))
    (begins : (p : Owner)
      → R (threads s r idle w q) (threads s' r' o' w' q')
      → ¬ IsInOther p
      → IsSafe (threads s r p w q)
      → (IsSafe (threads s' r' p w' q') × (o' ≡ idle)) ⊎ (p ≡ idle)) where
  moves-IsExclusive :
      (i j : ℕ)
      → R (threads s r (f j) w q) (threads s' r' o' w' q')
      → (f j ≡ idle → (k : ℕ) → ¬ IsInOther (f k))
      → ((k : ℕ) → i ≢ k → f k ≡ idle)
      → IsSafe (threads s r (f i) w q)
      → IsExclusive (crowd s' r' (update f j o') w' q')
  moves-IsExclusive i j e phases others safe = elim (ℕ_discrete i j) [
    | yes same ↦
        becomes_active f j o' (λ k ne. others k (λ ik. ne (sym same ∙ ik)))
          (keeps (f j) e (subst (λ m. IsSafe (threads s r (f m) w q)) same safe))
    | no other ↦
        elim (begins (f i)
          (subst (λ o. R (threads s r o w q) (threads s' r' o' w' q')) (others j other) e)
          (phases (others j other) i) safe) [
            | inl (kept, out) ↦ stays_outside f i j o' other others out kept
            | inr out ↦
                becomes_active f j o' (λ k ne. all_outside others out k)
                  (keeps (f j) e
                    (subst (λ o. IsSafe (threads s r o w q)) (out ∙ sym (others j other)) safe))
          ]
  ]

CrowdStep-IsExclusive : {c c' : Crowd} → CrowdStep c c' → IsExclusive c → IsExclusive c'
CrowdStep-IsExclusive (one_starts j e phases) (exclusive i others safe) =
    moves-IsExclusive StartStep IsInStop (λ o. start-IsSafe) (λ p. idle_starts) i j e phases others
      safe
CrowdStep-IsExclusive (one_stops j e phases) (exclusive i others safe) =
    moves-IsExclusive StopStep IsInStart (λ o. stop-IsSafe) (λ p. idle_stops) i j e phases others
      safe
CrowdStep-IsExclusive (worker_moves e) (exclusive i others safe) =
    exclusive i others (worker-IsSafe (beside_any _ e) safe)

-- On a new service, with any number of threads that call start and stop, none of which begins a
-- call of one while another thread is inside the other, and with every access interleaved with
-- those of the others and of the worker: at most one caller is inside a call behind the exchange of
-- running_, all others are outside, and with that one as the owner the fields and the worker are as
-- for a single owner. In particular no join throws.
pub reaches-IsExclusive : {c : Crowd} → CrowdReaches new_crowd c → IsExclusive c
reaches-IsExclusive gathers = exclusive 0 (λ k ne. refl) (rests (inl refl))
reaches-IsExclusive (goes_on run e) = CrowdStep-IsExclusive e (reaches-IsExclusive run)
