-- ===== src/ConnectivityService/Threads/Hang.antt =====
-- src/ConnectivityService/connectivity_service.cpp: a second thread in `stop` whose request comes
-- before `start` has made the worker, and whose `join` comes after it.
use connected_vehicle_platfo.Prelude.{Bool, true, false}
use connected_vehicle_platfo.ConnectivityService.{ServiceState, starting, publishing}
use connected_vehicle_platfo.ConnectivityService.Threads.{
  Owner, idle, begun, asking, dialling, spawning, joining, Worker, absent, looping, Threads,
  threads, working, sets_running, stores_starting, is_granted, connects, spawns, ends_start,
  StopStep, finds_stopped, clears_running, requests_nothing, joins, throws, WorkerStep, enters,
  stores, comes_round, returns, by_start, by_stop, by_worker, new_threads, Reaches,
}
use connected_vehicle_platfo.ConnectivityService.Threads.Safety.{
  IsAlive, at_test, at_work, IsSafe, has_begun, asks, dials, spawns_next, reaches-IsSafe,
}
use connected_vehicle_platfo.ConnectivityService.Threads.Race.{
  ThreeReach, at_first, and_then, by_pair, by_second,
}

-- `start` is under way, and nothing has been refused so far.
pub data IsGoingWell : Owner → Type 0 where
  well_begun : IsGoingWell begun
  well_asking : IsGoingWell asking
  well_dialling : IsGoingWell dialling
  well_spawning : IsGoingWell spawning

-- What can come afterwards, as long as the owner does not call `start` again.
pub data Aftermath (t : Threads) (p : Owner) : Threads → Owner → Type 0 where
  at_end : Aftermath t p t p
  worker_goes_on :
      {t' t'' : Threads} {p' : Owner}
      → Aftermath t p t' p'
      → WorkerStep t' t''
      → Aftermath t p t'' p'
  owner_stops :
      {t' t'' : Threads} {p' : Owner} → Aftermath t p t' p' → StopStep t' t'' → Aftermath t p t'' p'
  second_goes_on :
      {s s' : ServiceState} {r r' : Bool} {o p' p'' : Owner} {w w' : Worker} {q q' : Bool}
      → Aftermath t p (threads s r o w q) p'
      → StopStep (threads s r p' w q) (threads s' r' p'' w' q')
      → Aftermath t p (threads s' r' o w' q') p''

-- running_ is down, the worker is in its loop, and nobody has asked it to stop.
pub data IsHung : Threads → Owner → Type 0 where
  hung : {s : ServiceState} {w : Worker} → IsAlive w → IsHung (threads s false idle w false) joining

worker-IsHung : {t t' : Threads} {p : Owner} → IsHung t p → WorkerStep t t' → IsHung t' p
worker-IsHung (hung a) enters = hung at_work
worker-IsHung (hung a) (stores e) = hung at_work
worker-IsHung (hung a) comes_round = hung at_test
worker-IsHung (hung a) returns = elim a [ ]

stop-IsHung : {t t' : Threads} {p : Owner} → IsHung t p → StopStep t t' → IsHung t' p
stop-IsHung (hung a) finds_stopped = hung a

second-IsHung :
    {s s' : ServiceState} {r r' : Bool} {o p p' : Owner} {w w' : Worker} {q q' : Bool}
    → IsHung (threads s r o w q) p
    → StopStep (threads s r p w q) (threads s' r' p' w' q')
    → IsHung (threads s' r' o w' q') p'
second-IsHung (hung a) joins = elim a [ ]
second-IsHung (hung a) throws = elim a [ ]

Aftermath-IsHung :
    {t : Threads} {p : Owner} {t' : Threads} {p' : Owner}
    → IsHung t p
    → Aftermath t p t' p'
    → IsHung t' p'
Aftermath-IsHung h at_end = h
Aftermath-IsHung h (worker_goes_on a e) = worker-IsHung (Aftermath-IsHung h a) e
Aftermath-IsHung h (owner_stops a e) = stop-IsHung (Aftermath-IsHung h a) e
Aftermath-IsHung h (second_goes_on a e) = second-IsHung (Aftermath-IsHung h a) e

then_after :
    {t t' : Threads} {p p' : Owner} {t'' : Threads} {p'' : Owner}
    → ThreeReach t p t' p'
    → Aftermath t' p' t'' p''
    → ThreeReach t p t'' p''
then_after run at_end = run
then_after run (worker_goes_on a e) = and_then (then_after run a) (by_pair (by_worker e))
then_after run (owner_stops a e) = and_then (then_after run a) (by_pair (by_stop e))
then_after run (second_goes_on a e) = and_then (then_after run a) (by_second e)

-- The second thread requests a stop of no thread.
request_is_lost :
    {s : ServiceState} {o : Owner} {q : Bool}
    → ThreeReach (threads s true o absent q) idle (threads s false o absent q) joining
request_is_lost =
    and_then (and_then at_first (by_second clears_running)) (by_second requests_nothing)

from_spawning :
    {s s' : ServiceState} {r r' : Bool} {o p : Owner} {w : Worker} {q q' : Bool}
    → ThreeReach (threads s r o w q) p (threads s' r' spawning absent q') joining
    → ThreeReach (threads s r o w q) p (threads publishing r' idle looping false) joining
from_spawning run =
    and_then (and_then run (by_pair (by_start spawns))) (by_pair (by_start ends_start))

from_dialling :
    {s s' : ServiceState} {r r' : Bool} {o p : Owner} {w : Worker} {q q' : Bool}
    → ThreeReach (threads s r o w q) p (threads s' r' dialling absent q') joining
    → ThreeReach (threads s r o w q) p (threads publishing r' idle looping false) joining
from_dialling run = from_spawning (and_then run (by_pair (by_start connects)))

from_asking :
    {s s' : ServiceState} {r r' : Bool} {o p : Owner} {w : Worker} {q q' : Bool}
    → ThreeReach (threads s r o w q) p (threads s' r' asking absent q') joining
    → ThreeReach (threads s r o w q) p (threads publishing r' idle looping false) joining
from_asking run = from_dialling (and_then run (by_pair (by_start is_granted)))

safe_hangs :
    {s : ServiceState} {r : Bool} {o : Owner} {w : Worker} {q : Bool}
    → IsGoingWell o
    → IsSafe (threads s r o w q)
    → ThreeReach (threads s r o w q) idle (threads publishing false idle looping false) joining
safe_hangs well_begun has_begun =
    from_asking (and_then request_is_lost (by_pair (by_start stores_starting)))
safe_hangs well_asking asks = from_asking request_is_lost
safe_hangs well_dialling dials = from_dialling request_is_lost
safe_hangs well_spawning spawns_next = from_spawning request_is_lost

-- Wherever start is under way, has been refused nothing so far and has not made its thread, a
-- second thread that calls stop can ask for a stop of no thread and wait in join for the thread
-- that start makes then. From there on, whatever the worker does and whichever calls of stop the
-- owner makes, as long as the owner does not call start again, the second thread is still in join,
-- running_ is down, the owner is outside and the worker is in its loop with no request to stop.
pub stop_hangs :
    {s : ServiceState} {r : Bool} {o p' : Owner} {w : Worker} {q : Bool} {t' : Threads}
    → IsGoingWell o
    → Reaches new_threads (threads s r o w q)
    → Aftermath (threads publishing false idle looping false) joining t' p'
    → ThreeReach (threads s r o w q) idle t' p' × IsHung t' p'
stop_hangs well run after =
    (then_after (safe_hangs well (reaches-IsSafe run)) after, Aftermath-IsHung (hung at_test) after)

-- If the owner calls `start` again then, it asks the AuthClient for a token while the worker is in an
-- iteration of its loop, where it uses the same AuthClient.
pub start_races :
    {s : ServiceState} {r : Bool} {o : Owner} {w : Worker} {q : Bool}
    → IsGoingWell o
    → Reaches new_threads (threads s r o w q)
    → ThreeReach (threads s r o w q) idle (threads starting true asking working false) joining
start_races well run =
    and_then
      (and_then (and_then (safe_hangs well (reaches-IsSafe run)) (by_pair (by_worker enters)))
        (by_pair (by_start sets_running)))
      (by_pair (by_start stores_starting))
