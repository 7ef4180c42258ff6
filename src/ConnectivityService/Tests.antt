-- ===== src/ConnectivityService/Tests.antt =====
-- src/ConnectivityService/connectivity_service.cpp at concrete inputs, those of
-- tests/connectivity_tests.cpp.
use connected_vehicle_platfo.Prelude.{
  ℕ, ◌≡◌, ◌⊎◌, refl, false, true, some, List, [], ◌∷◌, pos, codes,
}
use connected_vehicle_platfo.AuthClient.{IAuthBackend, AuthClient}
use connected_vehicle_platfo.TelemetryManager.{TelemetryManager}
use connected_vehicle_platfo.MqttClient.Fake.{Broker, fake_client, fake_platform, fake_doubles}
use connected_vehicle_platfo.ConnectivityService.{
  ConnectivityService, publishing, stopped, make, Parts, Here, start, stop, round, run_loop,
}
use connected_vehicle_platfo.ConnectivityService.Startup.{Outcome, start-Outcome}
use connected_vehicle_platfo.ConnectivityService.Rounds.{Iteration, round_guarded}
use connected_vehicle_platfo.ConnectivityService.Shutdown.{
  IsSound, EndsDisconnected, stop_outcome, Call, starts, publishes, stops, iterates, run,
  run-IsSound,
}
use connected_vehicle_platfo.ConnectivityService.Threads.{StartStep, StopStep, WorkerStep}
use connected_vehicle_platfo.ConnectivityService.Threads.Calls.{
  view, Nobody, OneCall, start-OneCall, stop-OneCall,
}
use connected_vehicle_platfo.ConnectivityService.Backlog.{Grows, backlog_remains}

abbrev parts : Parts Broker ℕ
parts = record {
  platform = fake_platform;
  doubles = fake_doubles;
  mqtt_client = some fake_client;
  manager_client = some fake_client;
  logger = record { log_path = codes "logs/connected_vehicle.log" };
  source_file = codes "connectivity_service.cpp";
}

abbrev granting : IAuthBackend Broker
granting = record {
  authenticate = λ request w. (record { access_token = codes "jwt-token"; expires_in = pos 60 }, w);
}

abbrev auth_client : AuthClient Broker
auth_client = record {
  backend = some granting;
  vehicle_id = codes "ECU_001";
  vehicle_secret = codes "secret123";
  access_token = [];
  expires_at = pos 0;
}

abbrev manager : TelemetryManager
manager = record { vehicle_id = codes "ECU_001"; pending_messages = codes "waiting" ∷ [] }

abbrev offline : Broker
offline = record { up = false; sent = [] }

abbrev new_service : ConnectivityService Broker
new_service = record {
  auth_client = some auth_client;
  telemetry_manager = some manager;
  state = stopped;
  running = false;
  worker = false;
}

abbrev started : Here parts
started = (record new_service { state = publishing; running = true; worker = true }, offline)

start-Outcome_example :
    ((new_service.running ≡ false) × Outcome parts new_service (start parts (new_service, offline)))
    ⊎ ((new_service.running ≡ true)
        × (start parts (new_service, offline) ≡ (true, (new_service, offline))))
start-Outcome_example = start-Outcome parts new_service offline

stop_outcome_example :
    (after : Here parts) × (stop parts ((λ here. here) ∷ []) started ≡ some (true, after))
    × (after.0.state ≡ stopped)
    × (after.0.running ≡ false)
    × (after.0.worker ≡ false)
    × EndsDisconnected parts after
stop_outcome_example =
    stop_outcome parts ((λ here. here) ∷ []) started
      (λ here. record { running = refl; worker = refl }, tt) refl refl

round_guarded_example : Iteration parts started (round parts started)
round_guarded_example = round_guarded parts started

abbrev calls : List (Call parts)
calls =
    starts ((λ here. here) ∷ [])
    ∷ iterates (λ here. here)
    ∷ publishes
    ∷ stops ((λ here. here) ∷ [])
    ∷ starts []
    ∷ []

run-IsSound_example :
    (after : Here parts) × (run parts calls (make (some auth_client) (some manager), offline)
      ≡ some after)
    × IsSound after.0
run-IsSound_example = run-IsSound parts (some auth_client) (some manager) offline calls (
  (λ here. record { running = refl; worker = refl }, tt),
  (
    λ here. record { running = refl; worker = refl },
    ((λ here. record { running = refl; worker = refl }, tt), (tt, tt)),
  ),
)

backlog_remains_example :
    Grows parts 2 started.0 (run_loop parts ((λ here. here) ∷ (λ here. here) ∷ []) started).0
backlog_remains_example =
    backlog_remains parts ((λ here. here) ∷ (λ here. here) ∷ []) started manager
      (λ here. refl, (λ here. refl, tt)) refl

start-OneCall_example :
    let (ok, (after, w)) = start parts (new_service, offline) in
    OneCall StartStep Nobody (view false new_service) (view false after) × (ok ≡ after.running)
start-OneCall_example = start-OneCall parts new_service offline refl

stop-OneCall_example :
    (after : Here parts) × (stop parts ((λ here. here) ∷ []) started ≡ some (true, after))
    × OneCall StopStep WorkerStep (view false started.0) (view true after.0)
stop-OneCall_example =
    stop-OneCall parts ((λ here. here) ∷ []) started
      (λ here. record { running = refl; worker = refl }, tt) refl refl
