-- ===== src/Bindings/Deployment.antt =====
-- fidl/ConnectedVehiclePlatform.fdepl and the interfaces in fidl/, from which generated/ is written:
-- the methods and the broadcast with their types and identifiers, against the generated code.
use connected_vehicle_platfo.Prelude.{ℕ, ◌≡◌, refl, true, false, Option, some, List, [], ◌∷◌}
use connected_vehicle_platfo.Bindings.CommonApi.{
  Wire, string_wire, uint16_wire, bool_wire, double_wire, Tuple, CommonApi, Dispatcher,
  dispatcher_of, undeployed_all, info_or_default, call_and_assign,
}
use connected_vehicle_platfo.Bindings.Connectivity
use connected_vehicle_platfo.Bindings.Diagnostics
use connected_vehicle_platfo.Bindings.Vehicle
use connected_vehicle_platfo.Bindings.Remote.{
  Method, connect, disconnect, publish_diagnostic, get_speed, get_battery_voltage, ins, outs, Stubs,
  adapter_of, remote_call,
}

-- The types of Franca IDL that the interfaces use, and what they are on the wire.
pub data FidlType : Type 0 where
  fidl_string fidl_uint16 fidl_boolean fidl_double : FidlType

abbrev pub deployed : List FidlType → List Wire
deployed [] = []
deployed (fidl_string ∷ ts) = string_wire ∷ deployed ts
deployed (fidl_uint16 ∷ ts) = uint16_wire ∷ deployed ts
deployed (fidl_boolean ∷ ts) = bool_wire ∷ deployed ts
deployed (fidl_double ∷ ts) = double_wire ∷ deployed ts

-- `SomeIpMethodID`.
abbrev pub some_ip_method_id : Method → ℕ
some_ip_method_id connect = 0x1001
some_ip_method_id disconnect = 0x1002
some_ip_method_id publish_diagnostic = 0x1003
some_ip_method_id get_speed = 0x1004
some_ip_method_id get_battery_voltage = 0x1005

-- The `in` and the `out` of a method.
abbrev pub fidl_in : Method → List FidlType
fidl_in connect = fidl_string ∷ fidl_uint16 ∷ fidl_string ∷ []
fidl_in disconnect = []
fidl_in publish_diagnostic = fidl_string ∷ fidl_string ∷ fidl_string ∷ []
fidl_in get_speed = []
fidl_in get_battery_voltage = []

abbrev pub fidl_out : Method → List FidlType
fidl_out connect = fidl_boolean ∷ fidl_string ∷ []
fidl_out disconnect = fidl_boolean ∷ fidl_string ∷ []
fidl_out publish_diagnostic = fidl_boolean ∷ fidl_string ∷ []
fidl_out get_speed = fidl_uint16 ∷ []
fidl_out get_battery_voltage = fidl_double ∷ []

-- The `out` and the `SomeIpEventID` of the broadcast SignalChanged.
abbrev pub signal_changed_out : List FidlType
signal_changed_out = fidl_uint16 ∷ fidl_double ∷ []

abbrev pub some_ip_event_id : ℕ
some_ip_event_id = 0x2001

module _ {W D : Type 0} (api : CommonApi W D) where
  -- What the description asks of the adapter for a method.
  abbrev pub IsDispatched : Stubs api → Method → Type 0
  IsDispatched stubs m =
      (d : Dispatcher api) × (dispatcher_of (some_ip_method_id m) (adapter_of api stubs m) ≡ some d)
      × (d.ins ≡ deployed (fidl_in m))
      × (d.outs ≡ deployed (fidl_out m))
      × (d.has_element ≡ true)
      × (d.is_little_endian ≡ false)

  -- For each of the five methods, the generated code is what the interface definitions say: the
  -- types of its arguments and its answer are those of the .fidl file, the generated adapter has a
  -- dispatcher with these types, for an element that the stub has and not in little-endian byte
  -- order, under the method identifier of the .fdepl file, and a call through the proxies is a call
  -- of the library with that identifier, these types, that byte order, the given call info or else
  -- the default one, and fresh Deployables.
  pub deployment_agrees :
      (stubs : Stubs api) (m : Method) (info : Option api.CallInfo) (args : Tuple D (ins m))
      (old : Tuple D (outs m)) (w : W)
      → (ins m ≡ deployed (fidl_in m))
        × (outs m ≡ deployed (fidl_out m))
        × IsDispatched stubs m
        × (remote_call api m info args old w
            ≡ api.call_method_with_reply
                (ins m)
                (outs m)
                (some_ip_method_id m)
                false
                false
                (info_or_default api info)
                args
                (undeployed_all api (outs m))
                w)
  unfolding Connectivity.some_ip_proxy Connectivity.forwarding Connectivity.stub_adapter
      Diagnostics.some_ip_proxy Diagnostics.forwarding Diagnostics.stub_adapter
      Vehicle.some_ip_proxy Vehicle.forwarding Vehicle.stub_adapter dispatcher_of call_and_assign
  deployment_agrees stubs connect info args old w =
      (refl, refl, (_, refl, refl, refl, refl, refl), refl)
  deployment_agrees stubs disconnect info args old w =
      (refl, refl, (_, refl, refl, refl, refl, refl), refl)
  deployment_agrees stubs publish_diagnostic info args old w =
      (refl, refl, (_, refl, refl, refl, refl, refl), refl)
  deployment_agrees stubs get_speed info args old w =
      (refl, refl, (_, refl, refl, refl, refl, refl), refl)
  deployment_agrees stubs get_battery_voltage info args old w =
      (refl, refl, (_, refl, refl, refl, refl, refl), refl)

  -- The event of the description is the one that the adapter registers and the proxy names.
  pub broadcast_agrees :
      (Vehicle.signal_values ≡ deployed signal_changed_out)
      × ((Vehicle.forwarding api (Vehicle.some_ip_proxy api)).get_signal_changed_event.event
          ≡ some_ip_event_id)
      × (Vehicle.adapter_events api
          ≡ record {
            event = some_ip_event_id;
            groups = api.undefined_eventgroup ∷ [];
            event_type = api.et_event;
            reliability = api.rt_unreliable;
          }
            ∷ [])
  unfolding Vehicle.adapter_events Vehicle.some_ip_proxy Vehicle.forwarding
  broadcast_agrees = (refl, refl, refl)
