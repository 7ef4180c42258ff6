-- ===== src/ConnectivityService/Threads/Callers/Waiting.antt =====
-- src/ConnectivityService/connectivity_service.cpp: of any number of callers, one that waits in `join`
-- does not wait for ever.
use connected_vehicle_platfo.Prelude.{
  update, update_here, update_there, ℕ, ◌≡◌, sym, subst, ◌≢◌, ◌∙◌, Bool, true, false, ℕ_discrete,
}
use connected_vehicle_platfo.ConnectivityService.{ServiceState, stopped}
use connected_vehicle_platfo.ConnectivityService.Threads.{
  Owner, idle, joining, joined, Worker, absent, ended, threads, IsThread, is_looping, is_working,
  is_leaving, is_ended, StopStep, joins, ends_stop, sees_request, comes_round, returns,
}
use connected_vehicle_platfo.ConnectivityService.Threads.Safety.{IsSafe, waits}
use connected_vehicle_platfo.ConnectivityService.Threads.Callers.{
  IsInStop, in_joining, in_joined, Crowd, crowd, CrowdStep, one_stops, worker_moves, new_crowd,
  CrowdReaches, gathers, goes_on,
}
use connected_vehicle_platfo.ConnectivityService.Threads.Callers.Exclusive.{
  IsExclusive, exclusive, reaches-IsExclusive,
}

joining-idle : joining ≢ idle
joining-idle e = elim (subst IsInStop e in_joining) [ ]

joined-idle : joined ≢ idle
joined-idle e = elim (subst IsInStop e in_joined) [ ]

-- The worker comes to its end, whatever the callers' places are.
worker_ends :
    {s : ServiceState} {f : ℕ → Owner} {w : Worker}
    → IsThread w
    → CrowdReaches (crowd s false f w true) (crowd s false f ended true)
worker_ends is_ended = gathers
worker_ends is_leaving = goes_on gathers (worker_moves {o = idle} returns)
worker_ends is_looping =
    goes_on (goes_on gathers (worker_moves {o = idle} sees_request))
      (worker_moves {o = idle} returns)
worker_ends is_working =
    goes_on
      (goes_on (goes_on gathers (worker_moves {o = idle} comes_round))
        (worker_moves {o = idle} sees_request))
      (worker_moves {o = idle} returns)

-- A step of `stop` that does not begin it.
goes_on_stopping :
    {s s' : ServiceState} {r r' : Bool} {f : ℕ → Owner} {w w' : Worker} {q q' : Bool} (j : ℕ)
    (o o' : Owner)
    → f j ≡ o
    → o ≢ idle
    → StopStep (threads s r o w q) (threads s' r' o' w' q')
    → CrowdStep (crowd s r f w q) (crowd s' r' (update f j o') w' q')
goes_on_stopping {s} {s'} {r} {r'} {f} {w} {w'} {q} {q'} j o o' at inside e =
    one_stops j (subst (λ p. StopStep (threads s r p w q) (threads s' r' o' w' q')) (sym at) e)
      (λ outside. absurd (inside (sym at ∙ outside)))

-- The service is stopped without a thread, and all callers are outside.
pub data IsOver : Crowd → Type 0 where
  over : {g : ℕ → Owner} → ((k : ℕ) → g k ≡ idle) → IsOver (crowd stopped false g absent true)

caller_finishes :
    {s : ServiceState} {f : ℕ → Owner} {w : Worker} (j : ℕ)
    → f j ≡ joining
    → ((k : ℕ) → j ≢ k → f k ≡ idle)
    → IsThread w
    → (c : Crowd) × IsOver c × CrowdReaches (crowd s false f w true) c
caller_finishes {f = f} j at others h = (
  _,
  over {g = update (update f j joined) j idle} (λ k. elim (ℕ_discrete j k) [
    | yes same ↦
        subst (λ m. update (update f j joined) j idle m ≡ idle) same
          (update_here (update f j joined) j idle)
    | no other ↦
        update_there (update f j joined) j k idle other
        ∙ update_there f j k joined other
        ∙ others k other
  ]),
  goes_on (goes_on (worker_ends h) (goes_on_stopping j joining joined at joining-idle joins))
      (goes_on_stopping j joined idle (update_here f j joined) joined-idle ends_stop),
)

safe_finishes :
    {s : ServiceState} {r : Bool} {f : ℕ → Owner} {w : Worker} {q : Bool} (j : ℕ)
    → f j ≡ joining
    → ((k : ℕ) → j ≢ k → f k ≡ idle)
    → IsSafe (threads s r joining w q)
    → (c : Crowd) × IsOver c × CrowdReaches (crowd s r f w q) c
safe_finishes j at others (waits h) = caller_finishes j at others h

exclusive_finishes :
    {s : ServiceState} {r : Bool} {f : ℕ → Owner} {w : Worker} {q : Bool} (j : ℕ)
    → f j ≡ joining
    → IsExclusive (crowd s r f w q)
    → (c : Crowd) × IsOver c × CrowdReaches (crowd s r f w q) c
exclusive_finishes {s} {r} {f} {w} {q} j at (exclusive i others safe) = elim (ℕ_discrete i j) [
  | yes same ↦
      safe_finishes j at (λ k ne. others k (λ ik. ne (sym same ∙ ik)))
        (subst (λ o. IsSafe (threads s r o w q)) at
          (subst (λ m. IsSafe (threads s r (f m) w q)) same safe))
  | no other ↦ absurd (joining-idle (sym at ∙ others j other))
]

-- On a new service, with any number of threads that call start and stop, none of which begins a
-- call of one while another thread is inside the other: wherever one of them waits in join, there
-- are steps of it and of the worker to a point where the state is Stopped, running_ is down, there
-- is no thread and all callers are outside. The worker and the callers do not block each other.
pub joining-IsOver :
    {s : ServiceState} {r : Bool} {f : ℕ → Owner} {w : Worker} {q : Bool} (j : ℕ)
    → CrowdReaches new_crowd (crowd s r f w q)
    → f j ≡ joining
    → (c : Crowd) × IsOver c × CrowdReaches (crowd s r f w q) c
joining-IsOver j run at = exclusive_finishes j at (reaches-IsExclusive run)
