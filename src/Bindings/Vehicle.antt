-- ===== src/Bindings/Vehicle.antt =====
-- generated/src-gen/v1/vehicle, generated/stub/v1/vehicle and generated/proxy/v1/vehicle.
pub mod Events
use connected_vehicle_platfo.Prelude.{
  ℕ, Bool, false, Option, none, some, List, [], ◌∷◌, Text, codes, ltb, Action,
}
use connected_vehicle_platfo.TelemetryManager.{Doubles}
use connected_vehicle_platfo.Bindings.CommonApi.{
  Wire, Tuple, uint16_wire, double_wire, Version, CommonApi, Registration, EventClient, ProxyParts,
  call_and_assign, call_async, Dispatcher, Dispatchers,
}

abbrev pub interface_name : Text
interface_name = codes "vehicle.VehicleSignalService:v1_0"

abbrev pub interface_version : Version
interface_version = record { version_major = 1; version_minor = 0 }

-- The answers of `getSpeed` and of `getBatteryVoltage`.
abbrev pub speed_answer : List Wire
speed_answer = uint16_wire ∷ []

abbrev pub voltage_answer : List Wire
voltage_answer = double_wire ∷ []

-- What `SignalChangedEvent` carries.
abbrev pub signal_values : List Wire
signal_values = uint16_wire ∷ double_wire ∷ []

-- `hasElement` of the stub.
unfoldable pub has_element : ℕ → Bool
has_element id = ltb id 3

module _ {W D : Type 0} (api : CommonApi W D) where
  open api use {
    CallStatus, CallInfo, ClientId, CallFuture, VoidFuture, send_event, get_completion_future,
    undefined_eventgroup, et_event, rt_unreliable,
  }

  -- `GetSpeedAsyncCallback` and `GetBatteryVoltageAsyncCallback`, which may be null.
  abbrev pub SpeedCallback : Type 0
  SpeedCallback = Option (CallStatus → ℕ → W → W)

  abbrev pub VoltageCallback : Type 0
  VoltageCallback = Option (CallStatus → D → W → W)

  pub record VehicleSignalServiceStub : Type 0 where
    pub get_interface_version : ClientId → Version
    pub get_speed : ClientId → (ℕ → W → W) → W → W
    pub get_battery_voltage : ClientId → (D → W → W) → W → W

  unfoldable pub stub_default : Doubles D → VehicleSignalServiceStub
  stub_default doubles = record {
    get_interface_version = λ client. interface_version;
    get_speed = λ client reply w. reply 0 w;
    get_battery_voltage = λ client reply w. reply (doubles.literal 0 1) w;
  }

  -- The two dispatchers of the stub adapter, and their registration.
  get_speed_dispatcher : VehicleSignalServiceStub → Dispatcher api
  unfolding has_element
  get_speed_dispatcher stub = record {
    ins = [];
    outs = speed_answer;
    is_little_endian = false;
    has_element = has_element 0;
    stub_method = λ client args reply. stub.get_speed client (λ speed. reply (speed, tt));
  }

  get_battery_voltage_dispatcher : VehicleSignalServiceStub → Dispatcher api
  unfolding has_element
  get_battery_voltage_dispatcher stub = record {
    ins = [];
    outs = voltage_answer;
    is_little_endian = false;
    has_element = has_element 1;
    stub_method =
        λ client args reply. stub.get_battery_voltage client (λ voltage. reply (voltage, tt));
  }

  unfoldable pub stub_adapter : VehicleSignalServiceStub → Dispatchers api
  unfolding get_speed_dispatcher get_battery_voltage_dispatcher
  stub_adapter stub =
      (0x1004, get_speed_dispatcher stub) ∷ (0x1005, get_battery_voltage_dispatcher stub) ∷ []

  -- The events that the adapter registers.
  unfoldable pub adapter_events : List (Registration api)
  adapter_events =
      record {
        event = 0x2001;
        groups = undefined_eventgroup ∷ [];
        event_type = et_event;
        reliability = rt_unreliable;
      }
      ∷ []

  -- `fireSignalChangedEvent` of the adapter.
  unfoldable pub adapter_fire : ℕ → D → W → W
  adapter_fire speed battery w = send_event signal_values 0x2001 false (speed, (battery, tt)) w

  -- `fireSignalChangedEvent` of the stub, by what `stubAdapter_.lock()` gives: the method of an
  -- adapter, or null.
  unfoldable pub stub_fire : Option (ℕ → D → W → W) → ℕ → D → W → W
  stub_fire none speed battery w = w
  stub_fire (some fire) speed battery w = fire speed battery w

  -- That of the default stub, which passes it on.
  unfoldable pub default_fire : Option (ℕ → D → W → W) → ℕ → D → W → W
  default_fire adapter speed battery w = stub_fire adapter speed battery w

  pub record VehicleSignalServiceProxyBase : Type 0 where
    pub get_speed :
        Option CallInfo → Tuple D speed_answer → Action W (CallStatus × Tuple D speed_answer)
    pub get_speed_async : SpeedCallback → Option CallInfo → Action W CallFuture
    pub get_battery_voltage :
        Option CallInfo → Tuple D voltage_answer → Action W (CallStatus × Tuple D voltage_answer)
    pub get_battery_voltage_async : VoltageCallback → Option CallInfo → Action W CallFuture
    pub get_signal_changed_event : EventClient api signal_values
    pub get_completion_future : Action W VoidFuture

  -- The two functions with a callback give the library one that calls it.
  call_back_speed : SpeedCallback → CallStatus → Tuple D speed_answer → W → W
  call_back_speed none status outputs w = w
  call_back_speed (some callback) status (speed, _) w = callback status speed w

  call_back_voltage : VoltageCallback → CallStatus → Tuple D voltage_answer → W → W
  call_back_voltage none status outputs w = w
  call_back_voltage (some callback) status (voltage, _) w = callback status voltage w

  -- `VehicleSignalServiceSomeIPProxy`.
  signal_changed : EventClient api signal_values
  signal_changed = record {
    group = undefined_eventgroup;
    event = 0x2001;
    event_type = et_event;
    reliability = rt_unreliable;
    is_little_endian = false;
  }

  some_ip_get_speed :
      Option CallInfo → Tuple D speed_answer → Action W (CallStatus × Tuple D speed_answer)
  some_ip_get_speed info old = call_and_assign api [] speed_answer 0x1004 info tt old

  some_ip_get_speed_async : SpeedCallback → Option CallInfo → Action W CallFuture
  unfolding call_back_speed
  some_ip_get_speed_async callback info =
      call_async api [] speed_answer 0x1004 info tt (call_back_speed callback)

  some_ip_get_battery_voltage :
      Option CallInfo → Tuple D voltage_answer → Action W (CallStatus × Tuple D voltage_answer)
  some_ip_get_battery_voltage info old = call_and_assign api [] voltage_answer 0x1005 info tt old

  some_ip_get_battery_voltage_async : VoltageCallback → Option CallInfo → Action W CallFuture
  unfolding call_back_voltage
  some_ip_get_battery_voltage_async callback info =
      call_async api [] voltage_answer 0x1005 info tt (call_back_voltage callback)

  unfoldable pub some_ip_proxy : VehicleSignalServiceProxyBase
  unfolding signal_changed some_ip_get_speed some_ip_get_speed_async some_ip_get_battery_voltage
      some_ip_get_battery_voltage_async
  some_ip_proxy = record {
    get_speed = some_ip_get_speed;
    get_speed_async = some_ip_get_speed_async;
    get_battery_voltage = some_ip_get_battery_voltage;
    get_battery_voltage_async = some_ip_get_battery_voltage_async;
    get_signal_changed_event = signal_changed;
    get_completion_future = get_completion_future;
  }

  -- `getOwnVersion` of that proxy.
  unfoldable pub own_version : Version
  own_version = record { version_major = 1; version_minor = 0 }

  -- `VehicleSignalServiceProxy` forwards to the proxy that it is made with.
  unfoldable pub forwarding : VehicleSignalServiceProxyBase → VehicleSignalServiceProxyBase
  forwarding delegate = record {
    get_speed = λ info old. delegate.get_speed info old;
    get_speed_async = λ callback info. delegate.get_speed_async callback info;
    get_battery_voltage = λ info old. delegate.get_battery_voltage info old;
    get_battery_voltage_async = λ callback info. delegate.get_battery_voltage_async callback info;
    get_signal_changed_event = delegate.get_signal_changed_event;
    get_completion_future = delegate.get_completion_future;
  }

  -- The rest of that class, which it takes from the same proxy.
  unfoldable pub forwarding_parts : ProxyParts W → ProxyParts W
  forwarding_parts delegate = record {
    Address = delegate.Address;
    ProxyStatusEvent = delegate.ProxyStatusEvent;
    InterfaceVersionAttribute = delegate.InterfaceVersionAttribute;
    get_address = λ w. delegate.get_address w;
    is_available = λ w. delegate.is_available w;
    is_available_blocking = λ w. delegate.is_available_blocking w;
    get_proxy_status_event = delegate.get_proxy_status_event;
    get_interface_version_attribute = delegate.get_interface_version_attribute;
  }

  -- What the factory is told: the proxy and the stub adapter to make for the interface's name.
  unfoldable pub proxy_registration : Text × VehicleSignalServiceProxyBase
  proxy_registration = (codes "vehicle.VehicleSignalService:v1_0", some_ip_proxy)

  unfoldable pub adapter_registration : Text × (VehicleSignalServiceStub → Dispatchers api)
  adapter_registration = (codes "vehicle.VehicleSignalService:v1_0", stub_adapter)
