-- ===== src/ConnectivityService/Threads/Safety.antt =====
-- src/ConnectivityService/connectivity_service.cpp: one owner's thread and the worker, interleaved.
use connected_vehicle_platfo.Prelude.{◌≡◌, refl, ◌⊎◌, inl, inr, Bool, true, false}
use connected_vehicle_platfo.ConnectivityService.{ServiceState, stopped, disconnected}
use connected_vehicle_platfo.ConnectivityService.Threads.{
  idle, begun, asking, dialling, failing, spawning, spawned, stopping, joining, joined, Worker,
  absent, looping, working, Threads, threads, IsThread, is_looping, is_working, is_leaving,
  is_ended, StartStep, finds_running, sets_running, stores_starting, is_refused, is_granted,
  fails_to_connect, connects, resets_running, spawns, stops_old, joins_old, ends_start, StopStep,
  finds_stopped, clears_running, requests, requests_nothing, joins, throws, ends_stop, WorkerStep,
  enters, sees_request, stores, comes_round, returns, Step, by_start, by_stop, by_worker,
  new_threads, Reaches, here, then_step,
}

-- The worker is in its loop.
pub data IsAlive : Worker → Type 0 where
  at_test : IsAlive looping
  at_work : IsAlive working

-- What holds at each point of the owner's thread.
pub data IsSafe : Threads → Type 0 where
  rests :
      {s : ServiceState} {q : Bool}
      → (s ≡ stopped) ⊎ (s ≡ disconnected)
      → IsSafe (threads s false idle absent q)
  runs : {s : ServiceState} {w : Worker} → IsAlive w → IsSafe (threads s true idle w false)
  has_begun : {s : ServiceState} {q : Bool} → IsSafe (threads s true begun absent q)
  asks : {s : ServiceState} {q : Bool} → IsSafe (threads s true asking absent q)
  dials : {s : ServiceState} {q : Bool} → IsSafe (threads s true dialling absent q)
  fails : {q : Bool} → IsSafe (threads disconnected true failing absent q)
  spawns_next : {s : ServiceState} {q : Bool} → IsSafe (threads s true spawning absent q)
  has_spawned :
      {s : ServiceState} {w : Worker} → IsAlive w → IsSafe (threads s true spawned w false)
  stops : {s : ServiceState} {w : Worker} → IsAlive w → IsSafe (threads s false stopping w false)
  waits : {s : ServiceState} {w : Worker} → IsThread w → IsSafe (threads s false joining w true)
  has_joined : {s : ServiceState} {q : Bool} → IsSafe (threads s false joined absent q)

pub start-IsSafe : {t t' : Threads} → StartStep t t' → IsSafe t → IsSafe t'
start-IsSafe finds_running (runs a) = runs a
start-IsSafe sets_running (rests e) = has_begun
start-IsSafe stores_starting has_begun = asks
start-IsSafe is_refused asks = fails
start-IsSafe is_granted asks = dials
start-IsSafe fails_to_connect dials = fails
start-IsSafe connects dials = spawns_next
start-IsSafe resets_running fails = rests (inr refl)
start-IsSafe spawns spawns_next = has_spawned at_test
start-IsSafe (stops_old h) spawns_next = elim h [ ]
start-IsSafe joins_old h = elim h [ ]
start-IsSafe ends_start (has_spawned a) = runs a

pub stop-IsSafe : {t t' : Threads} → StopStep t t' → IsSafe t → IsSafe t'
stop-IsSafe finds_stopped (rests e) = rests e
stop-IsSafe clears_running (runs a) = stops a
stop-IsSafe (requests h) (stops a) = waits h
stop-IsSafe requests_nothing (stops a) = elim a [ ]
stop-IsSafe joins (waits h) = has_joined
stop-IsSafe throws (waits h) = elim h [ ]
stop-IsSafe ends_stop has_joined = rests (inl refl)

pub worker-IsSafe : {t t' : Threads} → WorkerStep t t' → IsSafe t → IsSafe t'
worker-IsSafe enters (runs a) = runs at_work
worker-IsSafe enters (has_spawned a) = has_spawned at_work
worker-IsSafe enters (stops a) = stops at_work
worker-IsSafe sees_request (waits h) = waits is_leaving
worker-IsSafe (stores e) (runs a) = runs at_work
worker-IsSafe (stores e) (has_spawned a) = has_spawned at_work
worker-IsSafe (stores e) (stops a) = stops at_work
worker-IsSafe (stores e) (waits h) = waits is_working
worker-IsSafe comes_round (runs a) = runs at_test
worker-IsSafe comes_round (has_spawned a) = has_spawned at_test
worker-IsSafe comes_round (stops a) = stops at_test
worker-IsSafe comes_round (waits h) = waits is_looping
worker-IsSafe returns (runs a) = elim a [ ]
worker-IsSafe returns (has_spawned a) = elim a [ ]
worker-IsSafe returns (stops a) = elim a [ ]
worker-IsSafe returns (waits h) = waits is_ended

Step-IsSafe : {t t' : Threads} → Step t t' → IsSafe t → IsSafe t'
Step-IsSafe (by_start e) h = start-IsSafe e h
Step-IsSafe (by_stop e) h = stop-IsSafe e h
Step-IsSafe (by_worker e) h = worker-IsSafe e h

-- On a new service, with one owner's thread in start and stop and the worker's thread interleaved
-- with it step by step, join never throws. Between two calls either running_ is down, there is no
-- thread and the state is Stopped or Disconnected, or running_ is up and the worker is in its loop
-- with no stop requested. Inside the calls there is a thread exactly from its start to its join,
-- and running_ is up throughout start and down throughout stop.
pub reaches-IsSafe : {t : Threads} → Reaches new_threads t → IsSafe t
reaches-IsSafe here = rests (inl refl)
reaches-IsSafe (then_step r e) = Step-IsSafe e (reaches-IsSafe r)
