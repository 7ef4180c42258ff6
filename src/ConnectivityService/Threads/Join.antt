-- ===== src/ConnectivityService/Threads/Join.antt =====
-- src/ConnectivityService/connectivity_service.cpp: `stop` does not wait for ever.
use connected_vehicle_platfo.Prelude.{Bool, true, false}
use connected_vehicle_platfo.ConnectivityService.{ServiceState, stopped}
use connected_vehicle_platfo.ConnectivityService.Threads.{
  idle, joining, Worker, absent, ended, Threads, threads, IsThread, is_looping, is_working,
  is_leaving, is_ended, joins, ends_stop, sees_request, comes_round, returns, by_stop, by_worker,
  new_threads, Reaches, here, then_step,
}
use connected_vehicle_platfo.ConnectivityService.Threads.Safety.{IsSafe, waits, reaches-IsSafe}

finishes :
    {t : Threads} {s : ServiceState}
    → Reaches t (threads s false joining ended true)
    → Reaches t (threads stopped false idle absent true)
finishes r = then_step (then_step r (by_stop joins)) (by_stop ends_stop)

pub worker_finishes :
    {s : ServiceState} {w : Worker}
    → IsThread w
    → Reaches (threads s false joining w true) (threads stopped false idle absent true)
worker_finishes is_ended = finishes here
worker_finishes is_leaving = finishes (then_step here (by_worker returns))
worker_finishes is_looping =
    finishes (then_step (then_step here (by_worker sees_request)) (by_worker returns))
worker_finishes is_working = finishes (
    then_step (then_step (then_step here (by_worker comes_round)) (by_worker sees_request))
      (by_worker returns))

safe_finishes :
    {s : ServiceState} {r : Bool} {w : Worker} {q : Bool}
    → IsSafe (threads s r joining w q)
    → Reaches (threads s r joining w q) (threads stopped false idle absent true)
safe_finishes (waits h) = worker_finishes h

-- Wherever stop waits in join, in any interleaving of the owner's thread and the worker's from a
-- new service, there are steps to the end of stop, with the state Stopped, running_ down and no
-- thread: stop and the worker do not block each other.
pub join_completes :
    {s : ServiceState} {r : Bool} {w : Worker} {q : Bool}
    → Reaches new_threads (threads s r joining w q)
    → Reaches (threads s r joining w q) (threads stopped false idle absent true)
join_completes r = safe_finishes (reaches-IsSafe r)
