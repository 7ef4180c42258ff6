-- ===== src/ConnectivityService/Threads/Callers/Alone.antt =====
-- src/ConnectivityService/connectivity_service.cpp: what one owner and the worker can come to, they
-- can come to among any number of callers.
use connected_vehicle_platfo.Prelude.{
  update, update_here, update_there, ℕ, ◌≡◌, refl, sym, subst, ◌≢◌, ◌∙◌, Bool,
}
use connected_vehicle_platfo.ConnectivityService.{ServiceState}
use connected_vehicle_platfo.ConnectivityService.Threads.{
  Owner, idle, Worker, Threads, threads, StartStep, StopStep, WorkerStep, enters, sees_request,
  stores, comes_round, returns, Step, by_start, by_stop, by_worker, new_threads, Reaches, here,
  then_step,
}
use connected_vehicle_platfo.ConnectivityService.Threads.Callers.{
  IsInStart, IsInStop, crowd, one_starts, one_stops, worker_moves, new_crowd, CrowdReaches, gathers,
  goes_on,
}
use connected_vehicle_platfo.ConnectivityService.Threads.Callers.Exclusive.{beside_any, all_outside}

-- A run of the crowd in which caller 0 is the owner and the others are outside.
abbrev pub IsAlone : Threads → Type 0
IsAlone (threads s r o w q) =
    (f : ℕ → Owner) × (f 0 ≡ o)
    × ((k : ℕ) → 0 ≢ k → f k ≡ idle)
    × CrowdReaches new_crowd (crowd s r f w q)

idle_not-IsInStart : ¬ IsInStart idle
idle_not-IsInStart h = elim h [ ]

idle_not-IsInStop : ¬ IsInStop idle
idle_not-IsInStop h = elim h [ ]

worker_keeps :
    {s s' : ServiceState} {r r' : Bool} {o o' : Owner} {w w' : Worker} {q q' : Bool}
    → WorkerStep (threads s r o w q) (threads s' r' o' w' q')
    → o ≡ o'
worker_keeps enters = refl
worker_keeps sees_request = refl
worker_keeps (stores e) = refl
worker_keeps comes_round = refl
worker_keeps returns = refl

Step-IsAlone : (t t' : Threads) → Step t t' → IsAlone t → IsAlone t'
Step-IsAlone (threads s r o w q) (threads s' r' o' w' q') (by_start e) (f, at, others, run) = (
  update f 0 o',
  update_here f 0 o',
  λ k ne. update_there f 0 k o' ne ∙ others k ne,
  goes_on run (
      one_starts 0 (subst (λ p. StartStep (threads s r p w q) (threads s' r' o' w' q')) (sym at) e)
        (λ outside k h. idle_not-IsInStop (subst IsInStop (all_outside others outside k) h))),
)
Step-IsAlone (threads s r o w q) (threads s' r' o' w' q') (by_stop e) (f, at, others, run) = (
  update f 0 o',
  update_here f 0 o',
  λ k ne. update_there f 0 k o' ne ∙ others k ne,
  goes_on run (
      one_stops 0 (subst (λ p. StopStep (threads s r p w q) (threads s' r' o' w' q')) (sym at) e)
        (λ outside k h. idle_not-IsInStart (subst IsInStart (all_outside others outside k) h))),
)
Step-IsAlone (threads s r o w q) (threads s' r' o' w' q') (by_worker e) (f, at, others, run) =
    (f, at ∙ worker_keeps e, others, goes_on run (worker_moves (beside_any idle e)))

-- What one owner and the worker can come to from a new service is a run of the crowd too.
pub reaches-IsAlone : {t : Threads} → Reaches new_threads t → IsAlone t
reaches-IsAlone here = (λ k. idle, refl, λ k ne. refl, gathers)
reaches-IsAlone (then_step {t' = t1} {t'' = t2} run e) = Step-IsAlone t1 t2 e (reaches-IsAlone run)
