-- ===== src/ConnectivityRuntime/Tests.antt =====
-- src/connectivity/connectivity_runtime.cpp at concrete inputs, those of
-- tests/adaptive_autosar_tests.cpp.
use connected_vehicle_platfo.Prelude.{◌≡◌, true, [], ◌∷◌}
use connected_vehicle_platfo.ConnectivityRuntime.{make, default_config, is_connected}
use connected_vehicle_platfo.ConnectivityRuntime.History.{connects, run, connected-run}

connect_test :
    (is_connected (run (connects ∷ []) (make default_config)) ≡ true)
    × ((run (connects ∷ []) (make default_config)).config ≡ default_config)
connect_test = connected-run (connects ∷ []) default_config
