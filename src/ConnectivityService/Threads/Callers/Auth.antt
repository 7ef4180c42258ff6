-- ===== src/ConnectivityService/Threads/Callers/Auth.antt =====
-- src/ConnectivityService/connectivity_service.cpp: which threads use the AuthClient, which has no mutex.
use connected_vehicle_platfo.Prelude.{ℕ, ◌≡◌, refl, sym, subst, ◌≢◌, ◌∙◌, Bool, ℕ_discrete}
use connected_vehicle_platfo.ConnectivityService.{ServiceState}
use connected_vehicle_platfo.ConnectivityService.Threads.{
  Owner, idle, asking, Worker, absent, threads,
}
use connected_vehicle_platfo.ConnectivityService.Threads.Safety.{IsSafe, asks}
use connected_vehicle_platfo.ConnectivityService.Threads.Callers.{
  IsInStart, in_asking, crowd, new_crowd, CrowdReaches,
}
use connected_vehicle_platfo.ConnectivityService.Threads.Callers.Exclusive.{
  IsExclusive, exclusive, reaches-IsExclusive,
}

asking-absent :
    {s : ServiceState} {r : Bool} {w : Worker} {q : Bool}
    → IsSafe (threads s r asking w q)
    → w ≡ absent
asking-absent asks = refl

asking_not_idle : (o : Owner) → o ≡ asking → o ≢ idle
asking_not_idle o at out = elim (subst IsInStart (sym at ∙ out) in_asking) [ ]

alone_when_asking :
    {s : ServiceState} {r : Bool} {f : ℕ → Owner} {w : Worker} {q : Bool} (j : ℕ)
    → IsExclusive (crowd s r f w q)
    → f j ≡ asking
    → (w ≡ absent) × ((k : ℕ) → j ≢ k → f k ≡ idle)
alone_when_asking {s} {r} {f} {w} {q} j (exclusive i others safe) at = elim (ℕ_discrete i j) [
  | yes same ↦ (
    asking-absent
        (subst (λ o. IsSafe (threads s r o w q)) (subst (λ k. f k ≡ asking) (sym same) at) safe),
    λ k ne. others k (λ ik. ne (sym same ∙ ik)),
  )
  | no other ↦ absurd (asking_not_idle (f j) at (others j other))
]

-- On a new service, with any number of threads that call start and stop, none of which begins a
-- call of one while another thread is inside the other: while one of them asks the AuthClient for a
-- token, which has no mutex, no worker is there to use it, and all other callers are outside.
pub authenticates_alone :
    {s : ServiceState} {r : Bool} {f : ℕ → Owner} {w : Worker} {q : Bool} (j : ℕ)
    → CrowdReaches new_crowd (crowd s r f w q)
    → f j ≡ asking
    → (w ≡ absent) × ((k : ℕ) → j ≢ k → f k ≡ idle)
authenticates_alone j run at = alone_when_asking j (reaches-IsExclusive run) at
