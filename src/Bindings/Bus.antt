-- ===== src/Bindings/Bus.antt =====
-- A proxy and a stub adapter that the CommonAPI library connects: what the library documents of a
-- method call, as hypotheses.
use connected_vehicle_platfo.Prelude.{Bool, ℕ, ◌≡◌, ◌≢◌, true, false, Option, some, List, Action}
use connected_vehicle_platfo.Bindings.CommonApi.{
  Wire, Tuple, CommonApi, undeployed_all, info_or_default, call_and_assign, call_async, Dispatcher,
  Dispatchers, dispatcher_of,
}

module _ {W D : Type 0} (api : CommonApi W D) where
  open api use {CallStatus, CallInfo, ClientId, CallFuture, success}

  pub record Bus (adapter : Dispatchers api) : Type 0 where
    -- How the adapter knows the caller.
    pub client : ClientId
    -- A stub's answer on its way, and what the caller has at its end: the answer, or a failure if the
    -- stub has given none.
    pub send_reply : (outs : List Wire) → Tuple D outs → W → W
    pub take_reply : (outs : List Wire) → Tuple D outs → Action W (CallStatus × Tuple D outs)
    pub taken :
        (outs : List Wire) (undeployed answer : Tuple D outs) (w : W)
        → take_reply outs undeployed (send_reply outs answer w) ≡ ((success, answer), w)
    -- The stub has given no answer, and will give none. Then the call comes back with a status that
    -- says so, and the Deployables of the outputs are as the caller made them.
    pub is_unanswered : W → Bool
    pub fails :
        (outs : List Wire) (undeployed : Tuple D outs) (w : W)
        → is_unanswered w ≡ true
        → let ((status, values), w') = take_reply outs undeployed w in
          (status ≢ success) × (values ≡ undeployed)
    -- The world when a future is fulfilled, if nothing else happens until then.
    pub fulfilled : CallFuture → W → W
    -- A call of a method for which the adapter has a dispatcher, with the same types, calls the stub.
    pub delivers :
        (method : ℕ) (d : Dispatcher api) (little_endian : Bool) (info : CallInfo)
        (args : Tuple D d.ins) (undeployed : Tuple D d.outs) (w : W)
        → dispatcher_of method adapter ≡ some d
        → d.has_element ≡ true
        → d.is_little_endian ≡ little_endian
        → api.call_method_with_reply d.ins d.outs method false little_endian info args undeployed w
          ≡ take_reply d.outs undeployed (d.stub_method client args (send_reply d.outs) w)
    -- So does one with a callback, which is called with the answer, or with the failure.
    pub delivers_async :
        (method : ℕ) (d : Dispatcher api) (little_endian : Bool) (info : CallInfo)
        (args : Tuple D d.ins) (on_reply : CallStatus → Tuple D d.outs → W → W)
        (undeployed : Tuple D d.outs) (w : W)
        → dispatcher_of method adapter ≡ some d
        → d.has_element ≡ true
        → d.is_little_endian ≡ little_endian
        → let (future, w1) =
            api.call_method_async d.ins d.outs method false little_endian info args on_reply
              undeployed w in
          let ((status, outputs), w2) =
            take_reply d.outs undeployed (d.stub_method client args (send_reply d.outs) w) in
          fulfilled future w1 ≡ on_reply status outputs w2

module _ {W D : Type 0} (api : CommonApi W D) (adapter : Dispatchers api)
    (bus : Bus api adapter) where
  open api use {CallStatus, CallInfo}
  open bus use {client, send_reply, take_reply, fulfilled}

  -- What a call comes to at the caller.
  abbrev pub outcome : (d : Dispatcher api) → Tuple D d.ins → Action W (CallStatus × Tuple D d.outs)
  outcome d args w =
      take_reply d.outs (undeployed_all api d.outs)
        (d.stub_method client args (send_reply d.outs) w)

  pub call_and_assign-outcome :
      (method : ℕ) (d : Dispatcher api) (info : Option CallInfo) (args : Tuple D d.ins)
      (old : Tuple D d.outs) (w : W)
      → dispatcher_of method adapter ≡ some d
      → d.has_element ≡ true
      → d.is_little_endian ≡ false
      → call_and_assign api d.ins d.outs method info args old w ≡ outcome d args w
  unfolding call_and_assign
  call_and_assign-outcome method d info args old w found has order =
      bus.delivers method d false (info_or_default api info) args (undeployed_all api d.outs) w
        found has order

  pub call_async-outcome :
      (method : ℕ) (d : Dispatcher api) (info : Option CallInfo) (args : Tuple D d.ins)
      (on_reply : CallStatus → Tuple D d.outs → W → W) (w : W)
      → dispatcher_of method adapter ≡ some d
      → d.has_element ≡ true
      → d.is_little_endian ≡ false
      → let (future, w1) = call_async api d.ins d.outs method info args on_reply w in
        let ((status, outputs), w2) = outcome d args w in
        fulfilled future w1 ≡ on_reply status outputs w2
  unfolding call_async
  call_async-outcome method d info args on_reply w found has order =
      bus.delivers_async method d false (info_or_default api info) args on_reply
        (undeployed_all api d.outs) w found has order
