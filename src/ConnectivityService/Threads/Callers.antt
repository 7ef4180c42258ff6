-- ===== src/ConnectivityService/Threads/Callers.antt =====
-- src/ConnectivityService/connectivity_service.cpp: any number of threads that call `start` and
-- `stop` on the same service. Each has a place of its own, and all share the fields and the worker.
-- A call of `start` does not begin while another thread is in `stop`, nor the other way round.
pub mod Exclusive
pub mod Waiting
pub mod Alone
pub mod Auth
use connected_vehicle_platfo.Prelude.{ℕ, ◌≡◌, Bool, false, update}
use connected_vehicle_platfo.ConnectivityService.{ServiceState, stopped}
use connected_vehicle_platfo.ConnectivityService.Threads.{
  Owner, idle, begun, asking, dialling, failing, spawning, spawned, stopping, joining, joined,
  Worker, absent, threads, StartStep, StopStep, WorkerStep,
}

-- The place is inside `start`, and inside `stop`, behind the exchange of `running_`.
pub data IsInStart : Owner → Type 0 where
  in_begun : IsInStart begun
  in_asking : IsInStart asking
  in_dialling : IsInStart dialling
  in_failing : IsInStart failing
  in_spawning : IsInStart spawning
  in_spawned : IsInStart spawned

pub data IsInStop : Owner → Type 0 where
  in_stopping : IsInStop stopping
  in_joining : IsInStop joining
  in_joined : IsInStop joined

-- The fields, the worker, and the places of the callers.
pub data Crowd : Type 0 where
  crowd : ServiceState → Bool → (ℕ → Owner) → Worker → Bool → Crowd

pub data CrowdStep : Crowd → Crowd → Type 0 where
  one_starts :
      {s s' : ServiceState} {r r' : Bool} {f : ℕ → Owner} {o' : Owner} {w w' : Worker} {q q' : Bool}
      (j : ℕ)
      → StartStep (threads s r (f j) w q) (threads s' r' o' w' q')
      → (f j ≡ idle → (k : ℕ) → ¬ IsInStop (f k))
      → CrowdStep (crowd s r f w q) (crowd s' r' (update f j o') w' q')
  one_stops :
      {s s' : ServiceState} {r r' : Bool} {f : ℕ → Owner} {o' : Owner} {w w' : Worker} {q q' : Bool}
      (j : ℕ)
      → StopStep (threads s r (f j) w q) (threads s' r' o' w' q')
      → (f j ≡ idle → (k : ℕ) → ¬ IsInStart (f k))
      → CrowdStep (crowd s r f w q) (crowd s' r' (update f j o') w' q')
  worker_moves :
      {s s' : ServiceState} {r r' : Bool} {f : ℕ → Owner} {o : Owner} {w w' : Worker} {q q' : Bool}
      → WorkerStep (threads s r o w q) (threads s' r' o w' q')
      → CrowdStep (crowd s r f w q) (crowd s' r' f w' q')

-- A new service, with every caller outside.
abbrev pub new_crowd : Crowd
new_crowd = crowd stopped false (λ k. idle) absent false

pub data CrowdReaches (c : Crowd) : Crowd → Type 0 where
  gathers : CrowdReaches c c
  goes_on : {c' c'' : Crowd} → CrowdReaches c c' → CrowdStep c' c'' → CrowdReaches c c''
