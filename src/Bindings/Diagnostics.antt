-- ===== src/Bindings/Diagnostics.antt =====
-- generated/src-gen/v1/diagnostics, generated/stub/v1/diagnostics and generated/proxy/v1/diagnostics.
use connected_vehicle_platfo.Prelude.{
  ℕ, Bool, false, Option, none, some, List, [], ◌∷◌, Text, codes, ltb, Action,
}
use connected_vehicle_platfo.Bindings.CommonApi.{
  Wire, Tuple, string_wire, bool_wire, Version, CommonApi, ProxyParts, call_and_assign, call_async,
  Dispatcher, Dispatchers,
}

abbrev pub interface_name : Text
interface_name = codes "diagnostics.DiagnosticsService:v1_0"

abbrev pub interface_version : Version
interface_version = record { version_major = 1; version_minor = 0 }

-- The arguments and the answer of `publishDiagnostic`.
abbrev pub arguments : List Wire
arguments = string_wire ∷ string_wire ∷ string_wire ∷ []

abbrev pub answer : List Wire
answer = bool_wire ∷ string_wire ∷ []

-- `hasElement` of the stub.
unfoldable pub has_element : ℕ → Bool
has_element id = ltb id 1

module _ {W D : Type 0} (api : CommonApi W D) where
  open api use {CallStatus, CallInfo, ClientId, CallFuture, VoidFuture, get_completion_future}

  -- `publishDiagnosticReply_t`.
  abbrev pub Reply : Type 0
  Reply = Bool → Text → W → W

  -- `PublishDiagnosticAsyncCallback`, which may be null.
  abbrev pub AsyncCallback : Type 0
  AsyncCallback = Option (CallStatus → Bool → Text → W → W)

  -- The caller's variables `_success` and `_message`.
  abbrev pub Outputs : Type 0
  Outputs = Tuple D answer

  pub record DiagnosticsServiceStub : Type 0 where
    pub get_interface_version : ClientId → Version
    pub publish_diagnostic : ClientId → Text → Text → Text → Reply → W → W

  unfoldable pub stub_default : DiagnosticsServiceStub
  stub_default = record {
    get_interface_version = λ client. interface_version;
    publish_diagnostic = λ client code severity detail reply w. reply false [] w;
  }

  -- The dispatcher of the stub adapter, and its registration.
  publish_diagnostic_dispatcher : DiagnosticsServiceStub → Dispatcher api
  unfolding has_element
  publish_diagnostic_dispatcher stub = record {
    ins = arguments;
    outs = answer;
    is_little_endian = false;
    has_element = has_element 0;
    stub_method = λ client args reply.
        let (code, (severity, (detail, _))) = args in
        stub.publish_diagnostic client code severity detail
          (λ success message. reply (success, (message, tt)));
  }

  unfoldable pub stub_adapter : DiagnosticsServiceStub → Dispatchers api
  unfolding publish_diagnostic_dispatcher
  stub_adapter stub = (0x1003, publish_diagnostic_dispatcher stub) ∷ []

  pub record DiagnosticsServiceProxyBase : Type 0 where
    pub publish_diagnostic :
        Text → Text → Text → Option CallInfo → Outputs → Action W (CallStatus × Outputs)
    pub publish_diagnostic_async :
        Text → Text → Text → AsyncCallback → Option CallInfo → Action W CallFuture
    pub get_completion_future : Action W VoidFuture

  -- `publishDiagnosticAsync` gives the library a function that calls a callback.
  call_back : AsyncCallback → CallStatus → Outputs → W → W
  call_back none status outputs w = w
  call_back (some callback) status (success, (message, _)) w = callback status success message w

  -- `DiagnosticsServiceSomeIPProxy`.
  some_ip_publish_diagnostic :
      Text → Text → Text → Option CallInfo → Outputs → Action W (CallStatus × Outputs)
  some_ip_publish_diagnostic code severity detail info old =
      call_and_assign api arguments answer 0x1003 info (code, (severity, (detail, tt))) old

  some_ip_publish_diagnostic_async :
      Text → Text → Text → AsyncCallback → Option CallInfo → Action W CallFuture
  unfolding call_back
  some_ip_publish_diagnostic_async code severity detail callback info =
      call_async api arguments answer 0x1003 info (code, (severity, (detail, tt)))
        (call_back callback)

  unfoldable pub some_ip_proxy : DiagnosticsServiceProxyBase
  unfolding some_ip_publish_diagnostic some_ip_publish_diagnostic_async
  some_ip_proxy = record {
    publish_diagnostic = some_ip_publish_diagnostic;
    publish_diagnostic_async = some_ip_publish_diagnostic_async;
    get_completion_future = get_completion_future;
  }

  -- `getOwnVersion` of that proxy.
  unfoldable pub own_version : Version
  own_version = record { version_major = 1; version_minor = 0 }

  -- `DiagnosticsServiceProxy` forwards to the proxy that it is made with.
  unfoldable pub forwarding : DiagnosticsServiceProxyBase → DiagnosticsServiceProxyBase
  forwarding delegate = record {
    publish_diagnostic =
        λ code severity detail info old. delegate.publish_diagnostic code severity detail info old;
    publish_diagnostic_async = λ code severity detail callback info.
        delegate.publish_diagnostic_async code severity detail callback info;
    get_completion_future = delegate.get_completion_future;
  }

  -- The rest of that class, which it takes from the same proxy.
  unfoldable pub forwarding_parts : ProxyParts W → ProxyParts W
  forwarding_parts delegate = record {
    Address = delegate.Address;
    ProxyStatusEvent = delegate.ProxyStatusEvent;
    InterfaceVersionAttribute = delegate.InterfaceVersionAttribute;
    get_address = λ w. delegate.get_address w;
    is_available = λ w. delegate.is_available w;
    is_available_blocking = λ w. delegate.is_available_blocking w;
    get_proxy_status_event = delegate.get_proxy_status_event;
    get_interface_version_attribute = delegate.get_interface_version_attribute;
  }

  -- What the factory is told: the proxy and the stub adapter to make for the interface's name.
  unfoldable pub proxy_registration : Text × DiagnosticsServiceProxyBase
  proxy_registration = (codes "diagnostics.DiagnosticsService:v1_0", some_ip_proxy)

  unfoldable pub adapter_registration : Text × (DiagnosticsServiceStub → Dispatchers api)
  adapter_registration = (codes "diagnostics.DiagnosticsService:v1_0", stub_adapter)
