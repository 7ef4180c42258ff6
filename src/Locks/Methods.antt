-- ===== src/Locks/Methods.antt =====
-- src/MqttClient/mqtt_client.cpp, src/SomeipClient/someip_client.cpp,
-- src/TelemetryManager/telemetry_manager.cpp, src/Logger/logger.cpp and
-- src/ConnectivityService/connectivity_service.cpp: the locks of each method.
pub mod Ranked
pub mod Joining
use connected_vehicle_platfo.Prelude.{ℕ, ◌≤◌, Option, none, some, List, [], ◌∷◌, arith}
use connected_vehicle_platfo.Locks.{
  Mutex, Code, finished, locked, either, again, joins, then, IsRanked,
}

-- The `mutex_` of the object, for each class that has one.
abbrev pub manager_mutex : ℕ → Mutex
manager_mutex object = record { level = 1; object = object }

abbrev pub client_mutex : ℕ → Mutex
client_mutex object = record { level = 2; object = object }

abbrev pub paho_mutex : ℕ → Mutex
paho_mutex object = record { level = 3; object = object }

abbrev pub logger_mutex : ℕ → Mutex
logger_mutex object = record { level = 4; object = object }

-- A lock up to the end of the function.
abbrev pub under : Mutex → Code → Code
under m body = locked m body finished

-- A call of PahoMqttBackend: each of its methods locks throughout, and calls the library alone.
abbrev pub paho_call : ℕ → Code
paho_call b = under (paho_mutex b) finished

-- What an `IMqttClient` pointer of the program can point to. An MqttClient has a backend.
pub data Client : Type 0 where
  mqtt : ℕ → (backend : ℕ) → Client
  someip : ℕ → Client

abbrev pub connect : Client → Code
connect (mqtt c b) = under (client_mutex c) (either finished (paho_call b))
connect (someip c) = under (client_mutex c) finished

abbrev pub disconnect : Client → Code
disconnect (mqtt c b) = under (client_mutex c) (paho_call b)
disconnect (someip c) = under (client_mutex c) finished

-- `reconnect` takes the lock twice. That of MqttClient does not connect after a failed `disconnect`.
unfoldable pub reconnect : Client → Code
unfolding then
reconnect (mqtt c b) = then (disconnect (mqtt c b)) (either finished (connect (mqtt c b)))
reconnect (someip c) = then (disconnect (someip c)) (connect (someip c))

abbrev pub is_connected : Client → Code
is_connected (mqtt c b) = under (client_mutex c) finished
is_connected (someip c) = under (client_mutex c) finished

abbrev pub publish : Client → Code
publish (mqtt c b) = under (client_mutex c) (either finished (paho_call b))
publish (someip c) = under (client_mutex c) finished

-- `subscribe` of SomeipClient is `isConnected`.
abbrev pub subscribe : Client → Code
subscribe (mqtt c b) = under (client_mutex c) (either finished (paho_call b))
subscribe (someip c) = is_connected (someip c)

-- A TelemetryManager, with the client that it points to.
pub record Manager : Type 0 where
  pub object : ℕ
  pub client : Option Client

abbrev pub queue_message : Manager → Code
queue_message m = under (manager_mutex m.object) finished

abbrev pub pending_count : Manager → Code
pending_count m = under (manager_mutex m.object) finished

publish_or_queue : Option Client → Manager → Code
unfolding then
publish_or_queue none m = queue_message m
publish_or_queue (some c) m =
    then (is_connected c)
      (either (then (publish c) (either finished (queue_message m))) (queue_message m))

unfoldable pub publish_sample : Manager → Code
unfolding publish_or_queue
publish_sample m = publish_or_queue m.client m

-- The rounds of the loop, each of which may be the last one.
pub flush_with : Option Client → Code
unfolding then
flush_with none = finished
flush_with (some c) = then (is_connected c) (either finished (again (publish c) finished))

unfoldable pub flush_queue : Manager → Code
unfolding flush_with
flush_queue m = under (manager_mutex m.object) (flush_with m.client)

abbrev pub log : ℕ → Code
log l = under (logger_mutex l) finished

-- A ConnectivityService, with what it points to. AuthClient has no mutex.
pub record Service : Type 0 where
  pub client : Option Client
  pub manager : Option Manager
  pub logger : ℕ

-- `worker_` gets a new thread, and the one that it has, if any, is joined before.
start_transport : Option Client → ℕ → ℕ → Code
unfolding then
start_transport none l worker = log l
start_transport (some c) l worker =
    then (connect c) (either (log l) (then (log l) (either finished (joins worker finished))))

-- `start`: turned away by `running_`, or on, with a log line for each way out.
unfoldable pub start : Service → (worker : ℕ) → Code
unfolding then start_transport
start s worker = either finished (
    then (log s.logger)
      (either (log s.logger) (then (log s.logger) (start_transport s.client s.logger worker))))

-- `stop`: `worker` is the thread in `worker_`.
unfoldable pub stop : Service → (worker : ℕ) → Code
unfolding then
stop s worker = either finished (then (log s.logger) (joins worker finished))

publish_with : Option Manager → Code
unfolding publish_sample
publish_with none = finished
publish_with (some m) = publish_sample m

unfoldable pub publish_telemetry : Service → Code
unfolding publish_with
publish_telemetry s = publish_with s.manager

publish_step : Service → Code
unfolding then publish_telemetry
publish_step s = then (publish_telemetry s) (either finished (log s.logger))

check_connection : Option Client → Service → Code
unfolding then reconnect publish_step
check_connection none s = log s.logger
check_connection (some c) s = then (is_connected c) (
    either (publish_step s) (
      then (log s.logger)
        (then (reconnect c) (either finished (then (log s.logger) (publish_step s))))))

round : Service → Code
unfolding then check_connection
round s =
    let connection = check_connection s.client s in
    either connection (then (log s.logger) (either (log s.logger) (then (log s.logger) connection)))

finish : Option Client → ℕ → Code
unfolding then
finish none l = log l
finish (some c) l = then (disconnect c) (log l)

-- `runLoop`.
unfoldable pub run_loop : Service → Code
unfolding round finish
run_loop s = again (round s) (finish s.client s.logger)
