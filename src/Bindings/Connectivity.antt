-- ===== src/Bindings/Connectivity.antt =====
-- generated/src-gen/v1/connectivity, generated/stub/v1/connectivity and generated/proxy/v1/connectivity.
use connected_vehicle_platfo.Prelude.{
  ℕ, Bool, false, Option, none, some, List, [], ◌∷◌, Text, codes, ltb, Action,
}
use connected_vehicle_platfo.Bindings.CommonApi.{
  Wire, Tuple, string_wire, uint16_wire, bool_wire, Version, CommonApi, ProxyParts, call_and_assign,
  call_async, Dispatcher, Dispatchers,
}

abbrev pub interface_name : Text
interface_name = codes "connectivity.ConnectivityService:v1_0"

abbrev pub interface_version : Version
interface_version = record { version_major = 1; version_minor = 0 }

-- The arguments of `connect`, and what both methods answer.
abbrev pub connect_arguments : List Wire
connect_arguments = string_wire ∷ uint16_wire ∷ string_wire ∷ []

abbrev pub answer : List Wire
answer = bool_wire ∷ string_wire ∷ []

-- `hasElement` of the stub.
unfoldable pub has_element : ℕ → Bool
has_element id = ltb id 2

module _ {W D : Type 0} (api : CommonApi W D) where
  open api use {CallStatus, CallInfo, ClientId, CallFuture, VoidFuture, get_completion_future}

  -- `connectReply_t` and `disconnectReply_t`.
  abbrev pub Reply : Type 0
  Reply = Bool → Text → W → W

  -- `ConnectAsyncCallback` and `DisconnectAsyncCallback`, which may be null.
  abbrev pub AsyncCallback : Type 0
  AsyncCallback = Option (CallStatus → Bool → Text → W → W)

  -- The caller's variables `_success` and `_message`.
  abbrev pub Outputs : Type 0
  Outputs = Tuple D answer

  pub record ConnectivityServiceStub : Type 0 where
    pub get_interface_version : ClientId → Version
    pub connect : ClientId → Text → ℕ → Text → Reply → W → W
    pub disconnect : ClientId → Reply → W → W

  unfoldable pub stub_default : ConnectivityServiceStub
  stub_default = record {
    get_interface_version = λ client. interface_version;
    connect = λ client broker_host broker_port client_id reply w. reply false [] w;
    disconnect = λ client reply w. reply false [] w;
  }

  -- The two dispatchers of the stub adapter, and their registration.
  connect_dispatcher : ConnectivityServiceStub → Dispatcher api
  unfolding has_element
  connect_dispatcher stub = record {
    ins = connect_arguments;
    outs = answer;
    is_little_endian = false;
    has_element = has_element 0;
    stub_method = λ client args reply.
        let (broker_host, (broker_port, (client_id, _))) = args in
        stub.connect client broker_host broker_port client_id
          (λ success message. reply (success, (message, tt)));
  }

  disconnect_dispatcher : ConnectivityServiceStub → Dispatcher api
  unfolding has_element
  disconnect_dispatcher stub = record {
    ins = [];
    outs = answer;
    is_little_endian = false;
    has_element = has_element 1;
    stub_method = λ client args reply.
        stub.disconnect client (λ success message. reply (success, (message, tt)));
  }

  unfoldable pub stub_adapter : ConnectivityServiceStub → Dispatchers api
  unfolding connect_dispatcher disconnect_dispatcher
  stub_adapter stub = (0x1001, connect_dispatcher stub) ∷ (0x1002, disconnect_dispatcher stub) ∷ []

  pub record ConnectivityServiceProxyBase : Type 0 where
    pub connect : Text → ℕ → Text → Option CallInfo → Outputs → Action W (CallStatus × Outputs)
    pub connect_async : Text → ℕ → Text → AsyncCallback → Option CallInfo → Action W CallFuture
    pub disconnect : Option CallInfo → Outputs → Action W (CallStatus × Outputs)
    pub disconnect_async : AsyncCallback → Option CallInfo → Action W CallFuture
    pub get_completion_future : Action W VoidFuture

  -- `connectAsync` and `disconnectAsync` give the library a function that calls a callback.
  call_back : AsyncCallback → CallStatus → Outputs → W → W
  call_back none status outputs w = w
  call_back (some callback) status (success, (message, _)) w = callback status success message w

  -- `ConnectivityServiceSomeIPProxy`.
  some_ip_connect : Text → ℕ → Text → Option CallInfo → Outputs → Action W (CallStatus × Outputs)
  some_ip_connect broker_host broker_port client_id info old =
      call_and_assign api connect_arguments answer 0x1001 info
        (broker_host, (broker_port, (client_id, tt))) old

  some_ip_connect_async : Text → ℕ → Text → AsyncCallback → Option CallInfo → Action W CallFuture
  unfolding call_back
  some_ip_connect_async broker_host broker_port client_id callback info =
      call_async api connect_arguments answer 0x1001 info
        (broker_host, (broker_port, (client_id, tt))) (call_back callback)

  some_ip_disconnect : Option CallInfo → Outputs → Action W (CallStatus × Outputs)
  some_ip_disconnect info old = call_and_assign api [] answer 0x1002 info tt old

  some_ip_disconnect_async : AsyncCallback → Option CallInfo → Action W CallFuture
  unfolding call_back
  some_ip_disconnect_async callback info =
      call_async api [] answer 0x1002 info tt (call_back callback)

  unfoldable pub some_ip_proxy : ConnectivityServiceProxyBase
  unfolding some_ip_connect some_ip_connect_async some_ip_disconnect some_ip_disconnect_async
  some_ip_proxy = record {
    connect = some_ip_connect;
    connect_async = some_ip_connect_async;
    disconnect = some_ip_disconnect;
    disconnect_async = some_ip_disconnect_async;
    get_completion_future = get_completion_future;
  }

  -- `getOwnVersion` of that proxy.
  unfoldable pub own_version : Version
  own_version = record { version_major = 1; version_minor = 0 }

  -- `ConnectivityServiceProxy` forwards to the proxy that it is made with.
  unfoldable pub forwarding : ConnectivityServiceProxyBase → ConnectivityServiceProxyBase
  forwarding delegate = record {
    connect = λ broker_host broker_port client_id info old.
        delegate.connect broker_host broker_port client_id info old;
    connect_async = λ broker_host broker_port client_id callback info.
        delegate.connect_async broker_host broker_port client_id callback info;
    disconnect = λ info old. delegate.disconnect info old;
    disconnect_async = λ callback info. delegate.disconnect_async callback info;
    get_completion_future = delegate.get_completion_future;
  }

  -- The rest of that class, which it takes from the same proxy.
  unfoldable pub forwarding_parts : ProxyParts W → ProxyParts W
  forwarding_parts delegate = record {
    Address = delegate.Address;
    ProxyStatusEvent = delegate.ProxyStatusEvent;
    InterfaceVersionAttribute = delegate.InterfaceVersionAttribute;
    get_address = λ w. delegate.get_address w;
    is_available = λ w. delegate.is_available w;
    is_available_blocking = λ w. delegate.is_available_blocking w;
    get_proxy_status_event = delegate.get_proxy_status_event;
    get_interface_version_attribute = delegate.get_interface_version_attribute;
  }

  -- What the factory is told: the proxy and the stub adapter to make for the interface's name.
  unfoldable pub proxy_registration : Text × ConnectivityServiceProxyBase
  proxy_registration = (codes "connectivity.ConnectivityService:v1_0", some_ip_proxy)

  unfoldable pub adapter_registration : Text × (ConnectivityServiceStub → Dispatchers api)
  adapter_registration = (codes "connectivity.ConnectivityService:v1_0", stub_adapter)
