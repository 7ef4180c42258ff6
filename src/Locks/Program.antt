-- ===== src/Locks/Program.antt =====
-- The mutexes of src/: any number of threads that call the methods of any objects, and their workers.
use connected_vehicle_platfo.Prelude.{IsExclusive, ℕ, ◌<◌, ◌⊎◌, List, [], ◌∷◌, arith}
use connected_vehicle_platfo.Locks.{
  Mutex, holds, Code, finished, then, thread, Threads, HasEnded, Runs,
}
use connected_vehicle_platfo.Locks.Exclusion.{Runs-IsExclusive}
use connected_vehicle_platfo.Locks.Joins.{JoinsOnly-map}
use connected_vehicle_platfo.Locks.Progress.{CanStep, ranked_goes_on}
use connected_vehicle_platfo.Locks.Methods.{
  Client, connect, disconnect, reconnect, is_connected, publish, subscribe, Manager, queue_message,
  pending_count, publish_sample, flush_queue, log, Service, start, stop, publish_telemetry,
  run_loop,
}
use connected_vehicle_platfo.Locks.Methods.Ranked.{
  connect-IsRanked, disconnect-IsRanked, reconnect-IsRanked, is_connected-IsRanked,
  publish-IsRanked, subscribe-IsRanked, publish_sample-IsRanked, flush_queue-IsRanked,
  publish_telemetry-IsRanked, run_loop-IsRanked,
}
use connected_vehicle_platfo.Locks.Methods.Joining.{
  IsOrderly, then-IsOrderly, ranked-IsOrderly, log-IsOrderly, start-IsOrderly, stop-IsOrderly,
}

-- A call of a method. `start` and `stop` have the number of the thread in `worker_`.
pub data Call : Type 0 where
  connects disconnects reconnects asks_connected publishes subscribes : Client → Call
  queues counts_pending publishes_sample flushes : Manager → Call
  logs : ℕ → Call
  publishes_telemetry : Service → Call
  starts stops : Service → (worker : ℕ) → Call

abbrev pub code_of : Call → Code
code_of (connects c) = connect c
code_of (disconnects c) = disconnect c
code_of (reconnects c) = reconnect c
code_of (asks_connected c) = is_connected c
code_of (publishes c) = publish c
code_of (subscribes c) = subscribe c
code_of (queues m) = queue_message m
code_of (counts_pending m) = pending_count m
code_of (publishes_sample m) = publish_sample m
code_of (flushes m) = flush_queue m
code_of (logs l) = log l
code_of (publishes_telemetry s) = publish_telemetry s
code_of (starts s worker) = start s worker
code_of (stops s worker) = stop s worker

-- A thread that makes the calls one after another.
abbrev pub program : List Call → Code
program [] = finished
program (call ∷ rest) = then (code_of call) (program rest)

-- A thread of the program's own, or the worker of a service.
pub data Role : Type 0 where
  caller : List Call → Role
  worker : Service → Role

abbrev pub role_code : Role → Code
role_code (caller calls) = program calls
role_code (worker s) = run_loop s

abbrev pub IsWorker : Role → Type 0
IsWorker (caller calls) = ⊥
IsWorker (worker s) = Unit {0}

abbrev pub IsCaller : Role → Type 0
IsCaller (caller calls) = Unit {0}
IsCaller (worker s) = ⊥

-- A call of `start` and of `stop` joins a thread in `Target`.
abbrev pub CallJoins : (ℕ → Type 0) → Call → Type 0
CallJoins Target (connects c) = Unit {0}
CallJoins Target (disconnects c) = Unit {0}
CallJoins Target (reconnects c) = Unit {0}
CallJoins Target (asks_connected c) = Unit {0}
CallJoins Target (publishes c) = Unit {0}
CallJoins Target (subscribes c) = Unit {0}
CallJoins Target (queues m) = Unit {0}
CallJoins Target (counts_pending m) = Unit {0}
CallJoins Target (publishes_sample m) = Unit {0}
CallJoins Target (flushes m) = Unit {0}
CallJoins Target (logs l) = Unit {0}
CallJoins Target (publishes_telemetry s) = Unit {0}
CallJoins Target (starts s k) = Target k
CallJoins Target (stops s k) = Target k

abbrev pub CallsJoin : (ℕ → Type 0) → List Call → Type 0
CallsJoin Target [] = Unit {0}
CallsJoin Target (call ∷ rest) = CallJoins Target call × CallsJoin Target rest

abbrev pub RoleJoins : (ℕ → Type 0) → Role → Type 0
RoleJoins Target (caller calls) = CallsJoin Target calls
RoleJoins Target (worker s) = Unit {0}

-- One of the `n` threads is a worker.
abbrev pub IsWorkerOf : ℕ → (ℕ → Role) → ℕ → Type 0
IsWorkerOf n roles k = (k < n) × IsWorker (roles k)

module _ (Target : ℕ → Type 0) where
  code_of-IsOrderly : (call : Call) → CallJoins Target call → IsOrderly Target (code_of call)
  code_of-IsOrderly (connects c) h =
      ranked-IsOrderly Target (connect c) (connect-IsRanked 1 c (omega arith))
  code_of-IsOrderly (disconnects c) h =
      ranked-IsOrderly Target (disconnect c) (disconnect-IsRanked 1 c (omega arith))
  code_of-IsOrderly (reconnects c) h =
      ranked-IsOrderly Target (reconnect c) (reconnect-IsRanked 1 c (omega arith))
  code_of-IsOrderly (asks_connected c) h =
      ranked-IsOrderly Target (is_connected c) (is_connected-IsRanked 1 c (omega arith))
  code_of-IsOrderly (publishes c) h =
      ranked-IsOrderly Target (publish c) (publish-IsRanked 1 c (omega arith))
  code_of-IsOrderly (subscribes c) h =
      ranked-IsOrderly Target (subscribe c) (subscribe-IsRanked 1 c (omega arith))
  code_of-IsOrderly (queues m) h = ranked-IsOrderly Target (queue_message m) (ground arith)
  code_of-IsOrderly (counts_pending m) h = ranked-IsOrderly Target (pending_count m) (ground arith)
  code_of-IsOrderly (publishes_sample m) h =
      ranked-IsOrderly Target (publish_sample m) (publish_sample-IsRanked m)
  code_of-IsOrderly (flushes m) h = ranked-IsOrderly Target (flush_queue m) (flush_queue-IsRanked m)
  code_of-IsOrderly (logs l) h = log-IsOrderly Target l
  code_of-IsOrderly (publishes_telemetry s) h =
      ranked-IsOrderly Target (publish_telemetry s) (publish_telemetry-IsRanked s)
  code_of-IsOrderly (starts s k) h = start-IsOrderly Target k h s
  code_of-IsOrderly (stops s k) h = stop-IsOrderly Target k h s

  program-IsOrderly :
      (calls : List Call) → CallsJoin Target calls → IsOrderly Target (program calls)
  program-IsOrderly [] h = (tt, tt)
  program-IsOrderly (call ∷ rest) (h, h') =
      then-IsOrderly Target (code_of call) (program rest) (code_of-IsOrderly call h)
        (program-IsOrderly rest h')

-- A worker joins no thread.
role_code-IsOrderly :
    (Target : ℕ → Type 0) (role : Role)
    → RoleJoins Target role
    → IsOrderly (λ k. Target k × IsCaller role) (role_code role)
role_code-IsOrderly Target (caller calls) h =
    let (ranked, only) = program-IsOrderly Target calls h in
    (
      ranked,
      JoinsOnly-map Target (λ k. Target k × Unit {0}) (program calls) (λ k target. (target, tt))
          only,
    )
role_code-IsOrderly Target (worker s) h = ranked-IsOrderly _ (run_loop s) (run_loop-IsRanked s)

IsWorker-not_IsCaller : (role : Role) → IsWorker role → ¬ IsCaller role
IsWorker-not_IsCaller (caller calls) h = elim h [ ]
IsWorker-not_IsCaller (worker s) h = λ h'. h'

-- However many threads run any sequences of calls of the methods of MqttClient over a Paho backend,
-- SomeipClient, TelemetryManager, Logger and ConnectivityService, on any objects, beside workers in
-- the loop of ConnectivityService, where start and stop join workers: in every state that they can
-- reach no mutex is held by two of them, and all of them have ended or one of them can make a step,
-- while a thread waits for a mutex that another one holds and for the end of the thread that it
-- joins. When the loop of a worker ends is left open.
pub no_deadlock :
    (n : ℕ) (roles : ℕ → Role) {g : Threads}
    → ((j : ℕ) → RoleJoins (IsWorkerOf n roles) (roles j))
    → Runs n (λ j. thread (role_code (roles j)) []) g
    → ((m : Mutex) → IsExclusive (holds m) n g) × (((j : ℕ) → j < n → HasEnded g j) ⊎ CanStep n g)
no_deadlock n roles {g} joined run = (
  λ m. Runs-IsExclusive m run,
  ranked_goes_on n (λ j k. IsWorkerOf n roles k × IsCaller (roles j))
      (λ j k ((below, is_worker), h).
        (below, λ l (h', calls). IsWorker-not_IsCaller (roles k) is_worker calls))
      (λ j. role_code (roles j))
      (λ j. (role_code-IsOrderly (IsWorkerOf n roles) (roles j) (joined j)).0)
      (λ j. (role_code-IsOrderly (IsWorkerOf n roles) (roles j) (joined j)).1) run,
)
