-- ===== src/Bindings/Remote/Arrival.antt =====
-- generated/: a call through the proxies is the call of the stub behind the adapter.
use connected_vehicle_platfo.Prelude.{
  ◌≡◌, ◌≢◌, refl, sym, subst, ◌∙◌, ap, false, true, Option, none, some, [], Action,
}
use connected_vehicle_platfo.TelemetryManager.{Doubles}
use connected_vehicle_platfo.Bindings.CommonApi.{Tuple, CommonApi, undeployed_all, dispatcher_of}
use connected_vehicle_platfo.Bindings.Bus.{Bus, call_and_assign-outcome, call_async-outcome}
use connected_vehicle_platfo.Bindings.Connectivity
use connected_vehicle_platfo.Bindings.Diagnostics
use connected_vehicle_platfo.Bindings.Vehicle
use connected_vehicle_platfo.Bindings.Remote.{
  Method, connect, disconnect, publish_diagnostic, get_speed, get_battery_voltage, ins, outs, Stubs,
  default_stubs, adapter_of, local_call, remote_call, Callback, call_back, remote_call_async,
}

module _ {W D : Type 0} (api : CommonApi W D) where
  open api use {CallStatus, CallInfo}

  module _ (stubs : Stubs api) (m : Method) (bus : Bus api (adapter_of api stubs m)) where
    -- What a call of the stub comes to at the other end.
    abbrev pub local_outcome : Tuple D (ins m) → Action W (CallStatus × Tuple D (outs m))
    local_outcome args w =
        bus.take_reply (outs m) (undeployed_all api (outs m))
          (local_call api stubs m bus.client args (bus.send_reply (outs m)) w)

    -- What the stub does when it is called: it gives an answer, or none at all, and `w1` is the world
    -- behind the call, without the answer.
    abbrev pub Replies : Option (Tuple D (outs m)) → Tuple D (ins m) → W → W → Type 0
    Replies (some answer) args w w1 =
        local_call api stubs m bus.client args (bus.send_reply (outs m)) w
        ≡ bus.send_reply (outs m) answer w1
    Replies none args w w1 =
        (local_call api stubs m bus.client args (bus.send_reply (outs m)) w ≡ w1)
        × (bus.is_unanswered w1 ≡ true)

    -- What the caller has then: the answer, or a failure with the values of fresh Deployables.
    abbrev pub Receives :
        Option (Tuple D (outs m)) → (CallStatus × Tuple D (outs m)) × W → W → Type 0
    Receives (some answer) result w1 = result ≡ ((api.success, answer), w1)
    Receives none ((status, outputs), w') w1 =
        (status ≢ api.success) × (outputs ≡ undeployed_all api (outs m))

    local_outcome-Receives :
        (reply : Option (Tuple D (outs m))) (args : Tuple D (ins m)) (w w1 : W)
        → Replies reply args w w1
        → Receives reply (local_outcome args w) w1
    local_outcome-Receives (some answer) args w w1 answers =
        ap (bus.take_reply (outs m) (undeployed_all api (outs m))) answers
        ∙ bus.taken (outs m) (undeployed_all api (outs m)) answer w1
    local_outcome-Receives none args w w1 (same, silent) =
        subst (λ v. Receives none (bus.take_reply (outs m) (undeployed_all api (outs m)) v) w1)
          (sym same) (bus.fails (outs m) (undeployed_all api (outs m)) w1 silent)

  -- A call through the proxies is the call of the stub.
  arrives :
      (stubs : Stubs api) (m : Method) (bus : Bus api (adapter_of api stubs m))
      (info : Option CallInfo) (args : Tuple D (ins m)) (old : Tuple D (outs m)) (w : W)
      → remote_call api m info args old w ≡ local_outcome stubs m bus args w
  unfolding Connectivity.some_ip_proxy Connectivity.forwarding Connectivity.stub_adapter
      Diagnostics.some_ip_proxy Diagnostics.forwarding Diagnostics.stub_adapter
      Vehicle.some_ip_proxy Vehicle.forwarding Vehicle.stub_adapter dispatcher_of
  arrives stubs connect bus info args old w =
      call_and_assign-outcome api _ bus 0x1001 _ info args old w refl refl refl
  arrives stubs disconnect bus info args old w =
      call_and_assign-outcome api _ bus 0x1002 _ info args old w refl refl refl
  arrives stubs publish_diagnostic bus info args old w =
      call_and_assign-outcome api _ bus 0x1003 _ info args old w refl refl refl
  arrives stubs get_speed bus info args old w =
      call_and_assign-outcome api _ bus 0x1004 _ info args old w refl refl refl
  arrives stubs get_battery_voltage bus info args old w =
      call_and_assign-outcome api _ bus 0x1005 _ info args old w refl refl refl

  -- Over a library that delivers a call to the dispatcher with the method identifier, the types and
  -- the byte order of the call, a call of any of the five generated methods through the proxies is
  -- the call of the stub behind the generated adapter with the same arguments. If the stub gives an
  -- answer, the caller gets success and that answer, in the world that the stub leaves; if it gives
  -- none, and the library then reports a failure and leaves the outputs alone, the caller gets a
  -- failure with the values of fresh Deployables. What the caller's output variables held before
  -- does not matter.
  pub call_arrives :
      (stubs : Stubs api) (m : Method) (bus : Bus api (adapter_of api stubs m))
      (info : Option CallInfo) (args : Tuple D (ins m)) (old : Tuple D (outs m)) (w : W)
      (reply : Option (Tuple D (outs m))) (w1 : W)
      → Replies stubs m bus reply args w w1
      → (remote_call api m info args old w ≡ local_outcome stubs m bus args w)
        × Receives stubs m bus reply (remote_call api m info args old w) w1
  call_arrives stubs m bus info args old w reply w1 replies =
      let same = arrives stubs m bus info args old w in
      (
        same,
        subst (λ result. Receives stubs m bus reply result w1) (sym same)
            (local_outcome-Receives stubs m bus reply args w w1 replies),
      )

  -- Over a library that delivers a call to the dispatcher with its method identifier, types and
  -- byte order, and hands the answer to the callback, when the future of an asynchronous call of
  -- any of the five generated methods is fulfilled and nothing else has happened, the callback has
  -- been called with the status and the outputs that a call of the stub comes to, in the world that
  -- call leaves; with a null callback that world is left as it is.
  pub async_arrives :
      (stubs : Stubs api) (m : Method) (bus : Bus api (adapter_of api stubs m))
      (info : Option CallInfo) (args : Tuple D (ins m)) (callback : Option (Callback api m)) (w : W)
      → let (future, w1) = remote_call_async api m info args callback w in
        let ((status, outputs), w2) = local_outcome stubs m bus args w in
        bus.fulfilled future w1 ≡ call_back api m callback status outputs w2
  unfolding Connectivity.some_ip_proxy Connectivity.forwarding Connectivity.stub_adapter
      Diagnostics.some_ip_proxy Diagnostics.forwarding Diagnostics.stub_adapter
      Vehicle.some_ip_proxy Vehicle.forwarding Vehicle.stub_adapter dispatcher_of
  async_arrives stubs connect bus info args none w =
      call_async-outcome api _ bus 0x1001 _ info args _ w refl refl refl
  async_arrives stubs connect bus info args (some callback) w =
      call_async-outcome api _ bus 0x1001 _ info args _ w refl refl refl
  async_arrives stubs disconnect bus info args none w =
      call_async-outcome api _ bus 0x1002 _ info args _ w refl refl refl
  async_arrives stubs disconnect bus info args (some callback) w =
      call_async-outcome api _ bus 0x1002 _ info args _ w refl refl refl
  async_arrives stubs publish_diagnostic bus info args none w =
      call_async-outcome api _ bus 0x1003 _ info args _ w refl refl refl
  async_arrives stubs publish_diagnostic bus info args (some callback) w =
      call_async-outcome api _ bus 0x1003 _ info args _ w refl refl refl
  async_arrives stubs get_speed bus info args none w =
      call_async-outcome api _ bus 0x1004 _ info args _ w refl refl refl
  async_arrives stubs get_speed bus info args (some callback) w =
      call_async-outcome api _ bus 0x1004 _ info args _ w refl refl refl
  async_arrives stubs get_battery_voltage bus info args none w =
      call_async-outcome api _ bus 0x1005 _ info args _ w refl refl refl
  async_arrives stubs get_battery_voltage bus info args (some callback) w =
      call_async-outcome api _ bus 0x1005 _ info args _ w refl refl refl

  -- What the default stubs answer.
  abbrev pub default_answer : Doubles D → (m : Method) → Tuple D (outs m)
  default_answer doubles connect = (false, ([], tt))
  default_answer doubles disconnect = (false, ([], tt))
  default_answer doubles publish_diagnostic = (false, ([], tt))
  default_answer doubles get_speed = (0, tt)
  default_answer doubles get_battery_voltage = (doubles.literal 0 1, tt)

  local_call-default :
      (doubles : Doubles D) (m : Method) (client : api.ClientId) (args : Tuple D (ins m))
      (reply : Tuple D (outs m) → W → W) (w : W)
      → local_call api (default_stubs api doubles) m client args reply w
        ≡ reply (default_answer doubles m) w
  unfolding Connectivity.stub_default Diagnostics.stub_default Vehicle.stub_default
  local_call-default doubles connect client args reply w = refl
  local_call-default doubles disconnect client args reply w = refl
  local_call-default doubles publish_diagnostic client args reply w = refl
  local_call-default doubles get_speed client args reply w = refl
  local_call-default doubles get_battery_voltage client args reply w = refl

  -- Over a library that delivers calls, a call of any of the five methods on a default stub
  -- succeeds, leaves the world as it was and gives false with an empty message, the speed 0 or the
  -- voltage 0.0.
  pub default_answers :
      (doubles : Doubles D) (m : Method)
      (bus : Bus api (adapter_of api (default_stubs api doubles) m)) (info : Option CallInfo)
      (args : Tuple D (ins m)) (old : Tuple D (outs m)) (w : W)
      → remote_call api m info args old w ≡ ((api.success, default_answer doubles m), w)
  default_answers doubles m bus info args old w =
      arrives (default_stubs api doubles) m bus info args old w
      ∙ ap (bus.take_reply (outs m) (undeployed_all api (outs m)))
          (local_call-default doubles m bus.client args (bus.send_reply (outs m)) w)
      ∙ bus.taken (outs m) (undeployed_all api (outs m)) (default_answer doubles m) w
