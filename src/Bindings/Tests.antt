-- ===== src/Bindings/Tests.antt =====
-- Runs of the bindings over the small library of Bindings.Fake, with stubs that answer what they are
-- asked, and with the default stubs.
use connected_vehicle_platfo.Prelude.{
  ℕ, ◌≡◌, refl, Bool, true, false, none, some, [], ◌∷◌, Text, codes,
}
use connected_vehicle_platfo.Bindings.CommonApi.{
  string_wire, uint16_wire, bool_wire, CommonApi, dispatcher_of, init_stub_adapter,
}
use connected_vehicle_platfo.Bindings.Bus.{Bus}
use connected_vehicle_platfo.Bindings.Connectivity
use connected_vehicle_platfo.Bindings.Diagnostics
use connected_vehicle_platfo.Bindings.Vehicle
use connected_vehicle_platfo.Bindings.Vehicle.Events.{EventBus, signal_arrives}
use connected_vehicle_platfo.Bindings.Deployment.{IsDispatched, deployment_agrees}
use connected_vehicle_platfo.Bindings.Remote
use connected_vehicle_platfo.Bindings.Remote.{
  connect, publish_diagnostic, Stubs, default_stubs, adapter_of, remote_call, remote_call_async,
}
use connected_vehicle_platfo.Bindings.Remote.Arrival.{call_arrives, async_arrives}
use connected_vehicle_platfo.Bindings.Fake.{World, number, encode, fake_api, fake_bus}

-- Stubs that know a host and a number, and leave a mark of each call in the world.
abbrev echo_stubs : (api : CommonApi World ℕ) → Stubs api
echo_stubs api = record {
  connectivity = record {
    get_interface_version = λ client. Connectivity.interface_version;
    connect = λ client broker_host broker_port client_id reply w.
        reply true broker_host ((number broker_port ∷ []) ∷ w);
    disconnect = λ client reply w. reply true [] w;
  };
  diagnostics = record {
    get_interface_version = λ client. Diagnostics.interface_version;
    publish_diagnostic = λ client code severity detail reply w. reply true detail w;
  };
  vehicle = record {
    get_interface_version = λ client. Vehicle.interface_version;
    get_speed = λ client reply w. reply 88 w;
    get_battery_voltage = λ client reply w. reply 12 w;
  };
}

abbrev echo_api : CommonApi World ℕ
echo_api = fake_api (adapter_of (fake_api []) (echo_stubs (fake_api [])) connect)

echo_bus : Bus echo_api (adapter_of echo_api (echo_stubs echo_api) connect)
unfolding Connectivity.stub_adapter
echo_bus = fake_bus (adapter_of (fake_api []) (echo_stubs (fake_api [])) connect)

call_arrives_example :
    let result =
      remote_call echo_api connect none
        (codes "broker", (1883, (codes "car", tt)))
        (false, ([], tt))
        [] in
    (result ≡ ((true, (true, (codes "broker", tt))), (number 1883 ∷ []) ∷ []))
    × (result ≡ ((true, (true, (codes "broker", tt))), (number 1883 ∷ []) ∷ []))
unfolding Connectivity.stub_adapter echo_bus fake_bus
call_arrives_example =
    call_arrives echo_api (echo_stubs echo_api) connect echo_bus none
      (codes "broker", (1883, (codes "car", tt))) (false, ([], tt)) []
      (some (true, (codes "broker", tt))) ((number 1883 ∷ []) ∷ []) refl

-- A callback that leaves a mark of what it is told.
abbrev note_outcome : Bool → Bool → Text → World → World
note_outcome status success message w = encode Connectivity.answer (success, (message, tt)) ∷ w

async_arrives_example :
    let (future, w1) =
      remote_call_async echo_api connect
        (some 5)
        (codes "broker", (1883, (codes "car", tt)))
        (some note_outcome)
        [] in
    future w1 ≡ encode Connectivity.answer (true, (codes "broker", tt)) ∷ (number 1883 ∷ []) ∷ []
unfolding Connectivity.stub_adapter echo_bus fake_bus
async_arrives_example =
    async_arrives echo_api (echo_stubs echo_api) connect echo_bus (some 5)
      (codes "broker", (1883, (codes "car", tt))) (some note_outcome) []

abbrev event_bus : EventBus echo_api (Vehicle.adapter_events echo_api)
event_bus = record {
  notify = λ carries e values w. (number e.event ∷ encode carries values) ∷ w;
  announces = λ carries e little_endian values w registered same. refl;
}

signal_arrives_example :
    (Vehicle.default_fire echo_api (init_stub_adapter (Vehicle.adapter_fire echo_api) none) 88 12 []
      ≡ (number 0x2001 ∷ number 88 ∷ number 12 ∷ []) ∷ [])
    × (Vehicle.default_fire echo_api none 88 12 [] ≡ [])
unfolding Vehicle.some_ip_proxy Vehicle.forwarding
signal_arrives_example = signal_arrives echo_api event_bus none 88 12 []

deployment_agrees_example :
    (Remote.ins connect ≡ string_wire ∷ uint16_wire ∷ string_wire ∷ [])
    × (Remote.outs connect ≡ bool_wire ∷ string_wire ∷ [])
    × IsDispatched echo_api (echo_stubs echo_api) connect
    × (remote_call echo_api connect none
          (codes "broker", (1883, (codes "car", tt)))
          (false, ([], tt))
          []
        ≡ ((true, (true, (codes "broker", tt))), (number 1883 ∷ []) ∷ []))
unfolding Connectivity.stub_adapter dispatcher_of
deployment_agrees_example =
    deployment_agrees echo_api (echo_stubs echo_api) connect none
      (codes "broker", (1883, (codes "car", tt))) (false, ([], tt)) []
