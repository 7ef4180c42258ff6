-- ===== src/ConnectivityService/Threads/Race.antt =====
-- src/ConnectivityService/connectivity_service.cpp: a second thread that calls `stop` on the same
-- service. It has a place of its own in `stop`, and shares the fields.
use connected_vehicle_platfo.Prelude.{Bool, true, false}
use connected_vehicle_platfo.ConnectivityService.{ServiceState}
use connected_vehicle_platfo.ConnectivityService.Threads.{
  Owner, idle, begun, asking, dialling, failing, spawning, threw, Worker, absent, Threads, threads,
  StopStep, clears_running, requests_nothing, throws, Step, new_threads, Reaches,
}
use connected_vehicle_platfo.ConnectivityService.Threads.Safety.{
  IsSafe, has_begun, asks, dials, fails, spawns_next, reaches-IsSafe,
}

-- The threads of one owner and its worker, with the place of the second caller.
pub data ThreeStep : Threads → Owner → Threads → Owner → Type 0 where
  by_pair : {t t' : Threads} {p : Owner} → Step t t' → ThreeStep t p t' p
  by_second :
      {s s' : ServiceState} {r r' : Bool} {o p p' : Owner} {w w' : Worker} {q q' : Bool}
      → StopStep (threads s r p w q) (threads s' r' p' w' q')
      → ThreeStep (threads s r o w q) p (threads s' r' o w' q') p'

pub data ThreeReach (t : Threads) (p : Owner) : Threads → Owner → Type 0 where
  at_first : ThreeReach t p t p
  and_then :
      {t' t'' : Threads} {p' p'' : Owner}
      → ThreeReach t p t' p'
      → ThreeStep t' p' t'' p''
      → ThreeReach t p t'' p''

-- `start` is under way, and has not made the thread.
pub data IsStarting : Owner → Type 0 where
  when_begun : IsStarting begun
  when_asking : IsStarting asking
  when_dialling : IsStarting dialling
  when_failing : IsStarting failing
  when_spawning : IsStarting spawning

stop_throws :
    {s : ServiceState} {o : Owner} {q : Bool}
    → ThreeReach (threads s true o absent q) idle (threads s false o absent q) threw
stop_throws =
    and_then (and_then (and_then at_first (by_second clears_running)) (by_second requests_nothing))
      (by_second throws)

safe_throws :
    {s : ServiceState} {r : Bool} {o : Owner} {w : Worker} {q : Bool}
    → IsStarting o
    → IsSafe (threads s r o w q)
    → ThreeReach (threads s r o w q) idle (threads s false o w q) threw
safe_throws when_begun has_begun = stop_throws
safe_throws when_asking asks = stop_throws
safe_throws when_dialling dials = stop_throws
safe_throws when_failing fails = stop_throws
safe_throws when_spawning spawns_next = stop_throws

-- Wherever start is under way and has not made its thread, a second thread that calls stop can come
-- to the exception of join, by steps of its own; running_ is then down, and start stands where it
-- stood.
pub stop_during_start :
    {s : ServiceState} {r : Bool} {o : Owner} {w : Worker} {q : Bool}
    → IsStarting o
    → Reaches new_threads (threads s r o w q)
    → ThreeReach (threads s r o w q) idle (threads s false o w q) threw
stop_during_start under_way r = safe_throws under_way (reaches-IsSafe r)
