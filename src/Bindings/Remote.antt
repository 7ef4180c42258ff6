-- ===== src/Bindings/Remote.antt =====
-- generated/: the five methods of the three interfaces, under one type: what a caller calls, on the
-- forwarding proxy over the one for SOME/IP, and what a stub has for it.
pub mod Arrival
use connected_vehicle_platfo.Prelude.{ℕ, Bool, Option, none, some, List, [], Text, Action}
use connected_vehicle_platfo.TelemetryManager.{Doubles}
use connected_vehicle_platfo.Bindings.CommonApi.{Wire, Tuple, CommonApi, Dispatchers}
use connected_vehicle_platfo.Bindings.Connectivity
use connected_vehicle_platfo.Bindings.Diagnostics
use connected_vehicle_platfo.Bindings.Vehicle

pub data Method : Type 0 where
  connect disconnect publish_diagnostic get_speed get_battery_voltage : Method

abbrev pub ins : Method → List Wire
ins connect = Connectivity.connect_arguments
ins disconnect = []
ins publish_diagnostic = Diagnostics.arguments
ins get_speed = []
ins get_battery_voltage = []

abbrev pub outs : Method → List Wire
outs connect = Connectivity.answer
outs disconnect = Connectivity.answer
outs publish_diagnostic = Diagnostics.answer
outs get_speed = Vehicle.speed_answer
outs get_battery_voltage = Vehicle.voltage_answer

module _ {W D : Type 0} (api : CommonApi W D) where
  open api use {CallStatus, CallInfo, ClientId, CallFuture}

  -- A stub of each interface.
  pub record Stubs : Type 0 where
    pub connectivity : Connectivity.ConnectivityServiceStub api
    pub diagnostics : Diagnostics.DiagnosticsServiceStub api
    pub vehicle : Vehicle.VehicleSignalServiceStub api

  abbrev pub default_stubs : Doubles D → Stubs
  default_stubs doubles = record {
    connectivity = Connectivity.stub_default api;
    diagnostics = Diagnostics.stub_default api;
    vehicle = Vehicle.stub_default api doubles;
  }

  -- The adapter of the interface that has the method.
  abbrev pub adapter_of : Stubs → Method → Dispatchers api
  adapter_of stubs connect = Connectivity.stub_adapter api stubs.connectivity
  adapter_of stubs disconnect = Connectivity.stub_adapter api stubs.connectivity
  adapter_of stubs publish_diagnostic = Diagnostics.stub_adapter api stubs.diagnostics
  adapter_of stubs get_speed = Vehicle.stub_adapter api stubs.vehicle
  adapter_of stubs get_battery_voltage = Vehicle.stub_adapter api stubs.vehicle

  -- A call of the stub itself, which answers by `reply`.
  abbrev pub local_call :
      (stubs : Stubs) (m : Method) → ClientId → Tuple D (ins m) → (Tuple D (outs m) → W → W) → W → W
  local_call stubs connect client (broker_host, (broker_port, (client_id, _))) reply =
      stubs.connectivity.connect client broker_host broker_port client_id
        (λ success message. reply (success, (message, tt)))
  local_call stubs disconnect client args reply =
      stubs.connectivity.disconnect client (λ success message. reply (success, (message, tt)))
  local_call stubs publish_diagnostic client (code, (severity, (detail, _))) reply =
      stubs.diagnostics.publish_diagnostic client code severity detail
        (λ success message. reply (success, (message, tt)))
  local_call stubs get_speed client args reply =
      stubs.vehicle.get_speed client (λ speed. reply (speed, tt))
  local_call stubs get_battery_voltage client args reply =
      stubs.vehicle.get_battery_voltage client (λ voltage. reply (voltage, tt))

  -- A call of the proxy, with the caller's variables for the outputs.
  abbrev pub remote_call :
      (m : Method)
      → Option CallInfo
      → Tuple D (ins m)
      → Tuple D (outs m)
      → Action W (CallStatus × Tuple D (outs m))
  remote_call connect info (broker_host, (broker_port, (client_id, _))) old =
      (Connectivity.forwarding api (Connectivity.some_ip_proxy api)).connect broker_host broker_port
        client_id info old
  remote_call disconnect info args old =
      (Connectivity.forwarding api (Connectivity.some_ip_proxy api)).disconnect info old
  remote_call publish_diagnostic info (code, (severity, (detail, _))) old =
      (Diagnostics.forwarding api (Diagnostics.some_ip_proxy api)).publish_diagnostic code severity
        detail info old
  remote_call get_speed info args old =
      (Vehicle.forwarding api (Vehicle.some_ip_proxy api)).get_speed info old
  remote_call get_battery_voltage info args old =
      (Vehicle.forwarding api (Vehicle.some_ip_proxy api)).get_battery_voltage info old

  -- A callback of any of the methods, as one function of the outputs.
  abbrev pub Callback : Method → Type 0
  Callback connect = CallStatus → Bool → Text → W → W
  Callback disconnect = CallStatus → Bool → Text → W → W
  Callback publish_diagnostic = CallStatus → Bool → Text → W → W
  Callback get_speed = CallStatus → ℕ → W → W
  Callback get_battery_voltage = CallStatus → D → W → W

  abbrev pub call_back : (m : Method) → Option (Callback m) → CallStatus → Tuple D (outs m) → W → W
  call_back m none status outputs w = w
  call_back connect (some callback) status (success, (message, _)) w =
      callback status success message w
  call_back disconnect (some callback) status (success, (message, _)) w =
      callback status success message w
  call_back publish_diagnostic (some callback) status (success, (message, _)) w =
      callback status success message w
  call_back get_speed (some callback) status (speed, _) w = callback status speed w
  call_back get_battery_voltage (some callback) status (voltage, _) w = callback status voltage w

  -- A call of the proxy with a callback, which may be null.
  abbrev pub remote_call_async :
      (m : Method) → Option CallInfo → Tuple D (ins m) → Option (Callback m) → Action W CallFuture
  remote_call_async connect info (broker_host, (broker_port, (client_id, _))) callback =
      (Connectivity.forwarding api (Connectivity.some_ip_proxy api)).connect_async broker_host
        broker_port client_id callback info
  remote_call_async disconnect info args callback =
      (Connectivity.forwarding api (Connectivity.some_ip_proxy api)).disconnect_async callback info
  remote_call_async publish_diagnostic info (code, (severity, (detail, _))) callback =
      (Diagnostics.forwarding api (Diagnostics.some_ip_proxy api)).publish_diagnostic_async code
        severity detail callback info
  remote_call_async get_speed info args callback =
      (Vehicle.forwarding api (Vehicle.some_ip_proxy api)).get_speed_async callback info
  remote_call_async get_battery_voltage info args callback =
      (Vehicle.forwarding api (Vehicle.some_ip_proxy api)).get_battery_voltage_async callback info
