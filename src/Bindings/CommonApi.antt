-- ===== src/Bindings/CommonApi.antt =====
-- The CommonAPI library, as far as the files under generated/ use it. It is a parameter, over an
-- unknown world `W` and a type `D` of doubles. The helpers behind it are the text that the generator
-- repeats for each method.
use connected_vehicle_platfo.Prelude.{
  ℕ, ◌==◌, Bool, true, false, Option, none, some, List, [], ◌∷◌, Text, Action, if◌then◌else◌,
}

-- A type on the wire, with its deployment: StringDeployment, IntegerDeployment<uint16_t>, and
-- EmptyDeployment for the last two.
pub data Wire : Type 0 where
  string_wire uint16_wire bool_wire double_wire : Wire

abbrev pub Carrier : Type 0 → Wire → Type 0
Carrier D string_wire = Text
Carrier D uint16_wire = ℕ
Carrier D bool_wire = Bool
Carrier D double_wire = D

-- The values of a std::tuple of Deployables.
abbrev pub Tuple : Type 0 → List Wire → Type 0
Tuple D [] = Unit {0}
Tuple D (t ∷ ts) = Carrier D t × Tuple D ts

-- CommonAPI::Version.
pub record Version : Type 0 where
  pub version_major : ℕ
  pub version_minor : ℕ

-- MethodWithReplyStubDispatcher: the stub's method, with its arguments and what it answers by, and
-- whether the stub has the element.
pub record StubDispatcher (W D ClientId : Type 0) : Type 0 where
  pub ins : List Wire
  pub outs : List Wire
  pub is_little_endian : Bool
  pub has_element : Bool
  pub stub_method : ClientId → Tuple D ins → (Tuple D outs → W → W) → W → W

-- The adapter's map from method identifiers, which `addStubDispatcher` fills from the first on.
unfoldable pub dispatcher_of :
    {W D ClientId : Type 0}
    → ℕ
    → List (ℕ × StubDispatcher W D ClientId)
    → Option (StubDispatcher W D ClientId)
dispatcher_of method [] = none
dispatcher_of method ((id, d) ∷ rest) = if id == method then some d else dispatcher_of method rest

-- GetAttributeStubDispatcher of the interface version: how the stub locks it and what it says.
pub record VersionDispatcher (W ClientId : Type 0) : Type 0 where
  pub lock : Bool → W → W
  pub get : ClientId → Version
  pub is_little_endian : Bool
  pub has_element : Bool

-- `initStubAdapter` of a default stub: its pointer to an adapter is set. The pointer is weak, and what
-- `lock` gives is null again when the adapter is gone.
unfoldable pub init_stub_adapter : {A : Type 0} → A → Option A → Option A
init_stub_adapter adapter old = some adapter

-- `lockInterfaceVersionAttribute` of a stub, and `deactivateManagedInstances` of an adapter.
lock_interface_version_attribute : {W : Type 0} → Bool → W → W
lock_interface_version_attribute lock_access w = w

deactivate_managed_instances : {W : Type 0} → W → W
deactivate_managed_instances w = w

pub record CommonApi (W D : Type 0) : Type 1 where
  pub CallStatus : Type 0
  pub CallInfo : Type 0
  pub ClientId : Type 0
  pub CallFuture : Type 0  -- std::future<CallStatus>
  pub VoidFuture : Type 0  -- std::future<void>
  pub EventGroupId : Type 0
  pub EventType : Type 0
  pub ReliabilityType : Type 0
  pub undefined_eventgroup : EventGroupId
  pub et_event : EventType
  pub rt_unreliable : ReliabilityType
  pub success : CallStatus
  pub default_call_info : CallInfo
  -- What a Deployable holds that is made without a value.
  pub undeployed : (t : Wire) → Carrier D t
  -- ProxyHelper<ins, outs>::callMethodWithReply of a method, whether it is called reliably and
  -- in little-endian byte order: the outputs stand in the Deployables that it is given.
  pub call_method_with_reply :
      (ins outs : List Wire)
      → ℕ
      → Bool
      → Bool
      → CallInfo
      → Tuple D ins
      → Tuple D outs
      → Action W (CallStatus × Tuple D outs)
  -- ProxyHelper<ins, outs>::callMethodAsync.
  pub call_method_async :
      (ins outs : List Wire)
      → ℕ
      → Bool
      → Bool
      → CallInfo
      → Tuple D ins
      → (CallStatus → Tuple D outs → W → W)
      → Tuple D outs
      → Action W CallFuture
  -- StubEventHelper<carries>::sendEvent of an event, whether in little-endian byte order.
  pub send_event : (carries : List Wire) → ℕ → Bool → Tuple D carries → W → W
  pub get_completion_future : Action W VoidFuture
  -- StubAdapterHelper::deinit.
  pub deinit : W → W

-- What CommonAPI::Proxy gives to the proxies that forward to another one.
pub record ProxyParts (W : Type 0) : Type 1 where
  pub Address : Type 0
  pub ProxyStatusEvent : Type 0
  pub InterfaceVersionAttribute : Type 0
  pub get_address : W → Address
  pub is_available : W → Bool
  pub is_available_blocking : Action W Bool
  pub get_proxy_status_event : ProxyStatusEvent
  pub get_interface_version_attribute : InterfaceVersionAttribute

module _ {W D : Type 0} (api : CommonApi W D) where
  open api use {
    CallStatus, CallInfo, ClientId, CallFuture, default_call_info, undeployed,
    call_method_with_reply, call_method_async, EventGroupId, EventType, ReliabilityType,
  }

  -- What `registerEvent` is told of an event.
  pub record Registration : Type 0 where
    pub event : ℕ
    pub groups : List EventGroupId
    pub event_type : EventType
    pub reliability : ReliabilityType

  -- CommonAPI::SomeIP::Event: what a proxy's event is made with. It carries values of these types.
  pub record EventClient (carries : List Wire) : Type 0 where
    pub group : EventGroupId
    pub event : ℕ
    pub event_type : EventType
    pub reliability : ReliabilityType
    pub is_little_endian : Bool

  -- The Deployables of the outputs.
  abbrev pub undeployed_all : (ts : List Wire) → Tuple D ts
  undeployed_all [] = tt
  undeployed_all (t ∷ ts) = (undeployed t, undeployed_all ts)

  -- `_info ? _info : &CommonAPI::SomeIP::defaultCallInfo`.
  abbrev pub info_or_default : Option CallInfo → CallInfo
  info_or_default none = default_call_info
  info_or_default (some info) = info

  -- The body of a method with a reply. `old` are the caller's variables for the outputs, which are
  -- assigned from the Deployables after the call.
  unfoldable pub call_and_assign :
      (ins outs : List Wire)
      → ℕ
      → Option CallInfo
      → Tuple D ins
      → (old : Tuple D outs) → Action W (CallStatus × Tuple D outs)
  call_and_assign ins outs method info args old w =
      call_method_with_reply ins outs method false false (info_or_default info) args
        (undeployed_all outs) w

  -- The body of a method with a callback.
  unfoldable pub call_async :
      (ins outs : List Wire)
      → ℕ
      → Option CallInfo
      → Tuple D ins
      → (CallStatus → Tuple D outs → W → W)
      → Action W CallFuture
  call_async ins outs method info args on_reply w =
      call_method_async ins outs method false false (info_or_default info) args on_reply
        (undeployed_all outs) w

  -- The dispatchers of an adapter over this library.
  abbrev pub Dispatcher : Type 0
  Dispatcher = StubDispatcher W D ClientId

  abbrev pub Dispatchers : Type 0
  Dispatchers = List (ℕ × StubDispatcher W D ClientId)

  -- The adapter's dispatcher of the interface version, by the stub's method for it.
  unfoldable pub version_dispatcher : (ClientId → Version) → VersionDispatcher W ClientId
  unfolding lock_interface_version_attribute
  version_dispatcher get_interface_version = record {
    lock = lock_interface_version_attribute;
    get = get_interface_version;
    is_little_endian = false;
    has_element = true;
  }

  -- The destructor of an adapter.
  unfoldable pub destroy_adapter : W → W
  unfolding deactivate_managed_instances
  destroy_adapter w = api.deinit (deactivate_managed_instances w)
