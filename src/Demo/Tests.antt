-- ===== src/Demo/Tests.antt =====
-- src/main.cpp at concrete inputs.
use connected_vehicle_platfo.Prelude.{
  ◌≡◌, refl, ◌⊎◌, true, false, List, [], ◌∷◌, pos, Text, codes, false,
}
use connected_vehicle_platfo.Logger
use connected_vehicle_platfo.MqttClient.Fake.{fake_doubles}
use connected_vehicle_platfo.ConnectivityService.{Here, start}
use connected_vehicle_platfo.Demo.Main.{demo_parts, logger_of, prepare, main}
use connected_vehicle_platfo.Demo.Main.Outcome.{Succeeds, Aborts, main_outcome}
use connected_vehicle_platfo.Sockets.Fake.{fake_os, fake_descriptors, quiet_platform, nothing_open}
use connected_vehicle_platfo.SomeipClient.Frame.{big}
use connected_vehicle_platfo.Demo.{demo_authenticate, demo_log_path}
use connected_vehicle_platfo.Demo.CloudListener.{run_cloud_listener}
use connected_vehicle_platfo.Demo.CloudListener.Closing.{opened-run_cloud_listener}

no_secret_test :
    (demo_authenticate (record { vehicle_id = codes "ECU_001"; vehicle_secret = [] })).access_token
    ≡ []
unfolding demo_authenticate
no_secret_test = refl

opened-run_cloud_listener_example :
    run_cloud_listener fake_os quiet_platform 41002 nothing_open (pos 3) ≡ 0
opened-run_cloud_listener_example =
    opened-run_cloud_listener fake_os quiet_platform fake_descriptors (λ text w d. refl) 41002
      nothing_open (pos 3)

abbrev demo_source : Text
demo_source = codes "connectivity_service.cpp"

main_outcome_example :
    let logger = logger_of quiet_platform fake_os big fake_doubles demo_source nothing_open in
    let parts = demo_parts quiet_platform fake_os big fake_doubles demo_source logger in
    let iterations : List (Here parts → Here parts) = (λ here. here) ∷ [] in
    let result =
      main quiet_platform fake_os big fake_doubles demo_source nothing_open iterations iterations in
    let started = start parts (
      prepare quiet_platform fake_os big fake_doubles demo_source
        (Logger.make quiet_platform demo_log_path nothing_open).1) in
    ((started.0 ≡ true) × Succeeds quiet_platform fake_os big fake_doubles demo_source result)
    ⊎ ((started.0 ≡ false) × Aborts quiet_platform fake_os big fake_doubles demo_source result)
main_outcome_example =
    main_outcome quiet_platform fake_os big fake_doubles demo_source nothing_open
      ((λ here. here) ∷ []) ((λ here. here) ∷ [])
      (λ here. record { running = refl; worker = refl }, tt)
      (λ here. record { running = refl; worker = refl }, tt)
