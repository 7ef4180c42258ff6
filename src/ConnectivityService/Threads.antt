-- ===== src/ConnectivityService/Threads.antt =====
-- src/ConnectivityService/connectivity_service.cpp: the owner's thread in `start` and `stop`, and the
-- worker's thread in `runLoop`, step by step. A step is one access to an atomic field, to `worker_` or
-- to the stop request, or one turn of the loop; steps of the two threads come in any order. What the
-- clients answer is open: both ways on are steps.
pub mod Safety
pub mod Join
pub mod Calls
pub mod Race
pub mod Hang
pub mod Callers
mod Tests
use connected_vehicle_platfo.Prelude.{Bool, true, false}
use connected_vehicle_platfo.ConnectivityService.{
  ServiceState, starting, authenticating, connected, publishing, disconnected, reconnecting,
  stopped,
}

-- Where the owner's thread stands: between two calls, in `start` or in `stop`.
pub data Owner : Type 0 where
  idle : Owner
  begun : Owner  -- `running_` was false and is set
  asking : Owner  -- before `authenticate` has answered
  dialling : Owner  -- before the client's `connect` has answered
  failing : Owner  -- before `running_` is reset
  spawning : Owner  -- before the thread is made
  spawned : Owner  -- before Publishing is stored
  stopping : Owner  -- `running_` was true and is reset
  joining : Owner  -- stop is requested
  joined : Owner  -- before Stopped is stored
  threw : Owner  -- `join` has thrown std::system_error

-- Where the thread of `worker_` stands; `absent` if there is none to join.
pub data Worker : Type 0 where
  absent : Worker
  looping : Worker  -- before the loop's test
  working : Worker  -- in an iteration
  leaving : Worker  -- behind the loop
  ended : Worker  -- the thread's function has returned

-- `state_`, `running_`, both threads, and whether stop is requested of the worker.
pub data Threads : Type 0 where
  threads : ServiceState → Bool → Owner → Worker → Bool → Threads

-- The states that `runLoop` stores.
pub data IsStored : ServiceState → Type 0 where
  stores_authenticating : IsStored authenticating
  stores_publishing : IsStored publishing
  stores_disconnected : IsStored disconnected
  stores_reconnecting : IsStored reconnecting
  stores_connected : IsStored connected

-- `worker_` is a thread.
pub data IsThread : Worker → Type 0 where
  is_looping : IsThread looping
  is_working : IsThread working
  is_leaving : IsThread leaving
  is_ended : IsThread ended

-- The steps of `start`.
pub data StartStep : Threads → Threads → Type 0 where
  finds_running :
      {s : ServiceState} {w : Worker} {q : Bool}
      → StartStep (threads s true idle w q) (threads s true idle w q)
  sets_running :
      {s : ServiceState} {w : Worker} {q : Bool}
      → StartStep (threads s false idle w q) (threads s true begun w q)
  stores_starting :
      {s : ServiceState} {r : Bool} {w : Worker} {q : Bool}
      → StartStep (threads s r begun w q) (threads starting r asking w q)
  is_refused :
      {s : ServiceState} {r : Bool} {w : Worker} {q : Bool}
      → StartStep (threads s r asking w q) (threads disconnected r failing w q)
  is_granted :
      {s : ServiceState} {r : Bool} {w : Worker} {q : Bool}
      → StartStep (threads s r asking w q) (threads authenticating r dialling w q)
  fails_to_connect :
      {s : ServiceState} {r : Bool} {w : Worker} {q : Bool}
      → StartStep (threads s r dialling w q) (threads disconnected r failing w q)
  connects :
      {s : ServiceState} {r : Bool} {w : Worker} {q : Bool}
      → StartStep (threads s r dialling w q) (threads connected r spawning w q)
  resets_running :
      {s : ServiceState} {r : Bool} {w : Worker} {q : Bool}
      → StartStep (threads s r failing w q) (threads s false idle w q)
  -- The assignment to `worker_`; one that is a thread is first told to stop, and joined.
  spawns :
      {s : ServiceState} {r : Bool} {q : Bool}
      → StartStep (threads s r spawning absent q) (threads s r spawned looping false)
  stops_old :
      {s : ServiceState} {r : Bool} {w : Worker} {q : Bool}
      → IsThread w
      → StartStep (threads s r spawning w q) (threads s r spawning w true)
  joins_old :
      {s : ServiceState} {r : Bool} {q : Bool}
      → StartStep (threads s r spawning ended q) (threads s r spawning absent q)
  ends_start :
      {s : ServiceState} {r : Bool} {w : Worker} {q : Bool}
      → StartStep (threads s r spawned w q) (threads publishing r idle w q)

-- The steps of `stop`.
pub data StopStep : Threads → Threads → Type 0 where
  finds_stopped :
      {s : ServiceState} {w : Worker} {q : Bool}
      → StopStep (threads s false idle w q) (threads s false idle w q)
  clears_running :
      {s : ServiceState} {w : Worker} {q : Bool}
      → StopStep (threads s true idle w q) (threads s false stopping w q)
  requests :
      {s : ServiceState} {r : Bool} {w : Worker} {q : Bool}
      → IsThread w
      → StopStep (threads s r stopping w q) (threads s r joining w true)
  requests_nothing :
      {s : ServiceState} {r : Bool} {q : Bool}
      → StopStep (threads s r stopping absent q) (threads s r joining absent q)
  joins :
      {s : ServiceState} {r : Bool} {q : Bool}
      → StopStep (threads s r joining ended q) (threads s r joined absent q)
  throws :
      {s : ServiceState} {r : Bool} {q : Bool}
      → StopStep (threads s r joining absent q) (threads s r threw absent q)
  ends_stop :
      {s : ServiceState} {r : Bool} {w : Worker} {q : Bool}
      → StopStep (threads s r joined w q) (threads stopped r idle w q)

-- The steps of the worker.
pub data WorkerStep : Threads → Threads → Type 0 where
  enters :
      {s : ServiceState} {r : Bool} {o : Owner}
      → WorkerStep (threads s r o looping false) (threads s r o working false)
  sees_request :
      {s : ServiceState} {r : Bool} {o : Owner}
      → WorkerStep (threads s r o looping true) (threads s r o leaving true)
  stores :
      {s s' : ServiceState} {r : Bool} {o : Owner} {q : Bool}
      → IsStored s'
      → WorkerStep (threads s r o working q) (threads s' r o working q)
  comes_round :
      {s : ServiceState} {r : Bool} {o : Owner} {q : Bool}
      → WorkerStep (threads s r o working q) (threads s r o looping q)
  returns :
      {s : ServiceState} {r : Bool} {o : Owner} {q : Bool}
      → WorkerStep (threads s r o leaving q) (threads s r o ended q)

pub data Step (t t' : Threads) : Type 0 where
  by_start : StartStep t t' → Step t t'
  by_stop : StopStep t t' → Step t t'
  by_worker : WorkerStep t t' → Step t t'

-- A new service.
abbrev pub new_threads : Threads
new_threads = threads stopped false idle absent false

-- What the two threads can come to from `t`.
pub data Reaches (t : Threads) : Threads → Type 0 where
  here : Reaches t t
  then_step : {t' t'' : Threads} → Reaches t t' → Step t' t'' → Reaches t t''

pub Reaches-trans : {t t' t'' : Threads} → Reaches t t' → Reaches t' t'' → Reaches t t''
Reaches-trans f here = f
Reaches-trans f (then_step g e) = then_step (Reaches-trans f g) e
