-- ===== src/ConnectivityService/Threads/Tests.antt =====
-- src/ConnectivityService/connectivity_service.cpp: a run of both threads, in which the worker
-- stores a state before `start` has stored its last one.
use connected_vehicle_platfo.Prelude.{
  refl, ◌≢◌, update, update_here, update_there, ℕ, ◌≡◌, subst, true, false, ℕ_discrete,
}
use connected_vehicle_platfo.ConnectivityService.{starting, disconnected, publishing, stopped}
use connected_vehicle_platfo.ConnectivityService.Threads.{
  Owner, Worker, idle, begun, asking, threw, joining, spawned, absent, working, threads, is_working,
  sets_running, finds_running, stores_starting, is_granted, connects, spawns, ends_start,
  clears_running, requests, enters, stores, stores_disconnected, by_start, by_stop, by_worker,
  new_threads, Reaches, here, then_step,
}
use connected_vehicle_platfo.ConnectivityService.Threads.Safety.{IsSafe, reaches-IsSafe}
use connected_vehicle_platfo.ConnectivityService.Threads.Race.{
  ThreeReach, when_asking, stop_during_start,
}
use connected_vehicle_platfo.ConnectivityService.Threads.Hang.{
  well_asking, at_end, worker_goes_on, IsHung, stop_hangs,
}
use connected_vehicle_platfo.ConnectivityService.Threads.Callers.{
  IsInStart, in_begun, Crowd, IsInStop, crowd, one_starts, new_crowd, CrowdReaches, gathers,
  goes_on,
}
use connected_vehicle_platfo.ConnectivityService.Threads.Callers.Exclusive.{
  IsExclusive, reaches-IsExclusive,
}
use connected_vehicle_platfo.ConnectivityService.Threads.Callers.Alone.{IsAlone, reaches-IsAlone}
use connected_vehicle_platfo.ConnectivityService.Threads.Callers.Auth.{authenticates_alone}
use connected_vehicle_platfo.ConnectivityService.Threads.Callers.Waiting.{IsOver, joining-IsOver}

early_store : Reaches new_threads (threads disconnected true spawned working false)
early_store =
    then_step
      (then_step
        (then_step
          (then_step
            (then_step
              (then_step (then_step here (by_start sets_running)) (by_start stores_starting))
              (by_start is_granted))
            (by_start connects))
          (by_start spawns))
        (by_worker enters))
      (by_worker (stores stores_disconnected))

-- The state that the worker has stored is overwritten.
overwritten : Reaches new_threads (threads publishing true idle working false)
overwritten = then_step early_store (by_start ends_start)

asked_to_stop : Reaches new_threads (threads publishing false joining working true)
asked_to_stop =
    then_step (then_step overwritten (by_stop clears_running)) (by_stop (requests is_working))

reaches-IsSafe_example : IsSafe (threads publishing false joining working true)
reaches-IsSafe_example = reaches-IsSafe asked_to_stop

asking_now : Reaches new_threads (threads starting true asking absent false)
asking_now = then_step (then_step here (by_start sets_running)) (by_start stores_starting)

stop_during_start_example :
    ThreeReach
      (threads starting true asking absent false)
      idle
      (threads starting false asking absent false)
      threw
stop_during_start_example = stop_during_start when_asking asking_now

stop_hangs_example :
    ThreeReach
      (threads starting true asking absent false)
      idle
      (threads publishing false idle working false)
      joining
    × IsHung (threads publishing false idle working false) joining
stop_hangs_example = stop_hangs well_asking asking_now (worker_goes_on at_end enters)

begun_not-IsInStop : (k : ℕ) → ¬ IsInStop (update (λ k. idle) 0 begun k)
begun_not-IsInStop k in_stop = elim (ℕ_discrete 0 k) [
  | yes first ↦
      elim (subst IsInStop
        (subst (λ m. update (λ k. idle) 0 begun m ≡ begun) first (update_here (λ k. idle) 0 begun))
        in_stop) [ ]
  | no other ↦ elim (subst IsInStop (update_there (λ k. idle) 0 k begun other) in_stop) [ ]
]

-- While caller 0 is in `start`, caller 1 finds running_ up and is turned away.
two_callers :
    CrowdReaches new_crowd
      (crowd stopped true (update (update (λ k. idle) 0 begun) 1 idle) absent false)
unfolding ℕ_discrete
two_callers =
    goes_on (goes_on gathers (one_starts 0 sets_running (λ first k in_stop. elim in_stop [ ])))
      (one_starts 1 finds_running (λ second. begun_not-IsInStop))

reaches-IsExclusive_example :
    IsExclusive (crowd stopped true (update (update (λ k. idle) 0 begun) 1 idle) absent false)
reaches-IsExclusive_example = reaches-IsExclusive two_callers

-- Caller 0 goes on to ask for a token.
abbrev while_asking : ℕ → Owner
while_asking = update (update (update (λ k. idle) 0 begun) 1 idle) 0 asking

one_asks : CrowdReaches new_crowd (crowd starting true while_asking absent false)
unfolding ℕ_discrete
one_asks =
    goes_on two_callers
      (one_starts 0 stores_starting (λ first. elim (subst IsInStart first in_begun) [ ]))

authenticates_alone_example :
    (◌≡◌ {A = Worker} absent absent) × ((k : ℕ) → 0 ≢ k → while_asking k ≡ idle)
unfolding ℕ_discrete
authenticates_alone_example = authenticates_alone 0 one_asks refl

-- The same wait in join, with other callers outside.
alone_in_join : IsAlone (threads publishing false joining working true)
alone_in_join = reaches-IsAlone asked_to_stop

joining-IsOver_example :
    (c : Crowd) × IsOver c × CrowdReaches (crowd publishing false alone_in_join.0 working true) c
joining-IsOver_example = joining-IsOver 0 alone_in_join.3 alone_in_join.1
