-- ===== src/Bindings/Fake.antt =====
-- A small library for the runs of Bindings.Tests: messages are lists of untyped values, and the world
-- is the stack of the messages that are on their way.
use connected_vehicle_platfo.Prelude.{
  ℕ, ◌≡◌, ◌≢◌, is_empty, refl, ap, ◌∙◌, Bool, true, false, Option, none, some, List, [], ◌∷◌, Text,
  Action,
}
use connected_vehicle_platfo.Bindings.CommonApi.{
  Wire, string_wire, uint16_wire, bool_wire, double_wire, Carrier, Tuple, CommonApi, StubDispatcher,
  dispatcher_of,
}
use connected_vehicle_platfo.Bindings.Bus.{Bus}

pub data Value : Type 0 where
  text : Text → Value
  number : ℕ → Value
  truth : Bool → Value
  wrong : Value

abbrev pub World : Type 0
World = List (List Value)

abbrev value_of : (t : Wire) → Carrier ℕ t → Value
value_of string_wire s = text s
value_of uint16_wire n = number n
value_of bool_wire b = truth b
value_of double_wire n = number n

-- What a value is for a receiver that expects a type.
abbrev read_as : (t : Wire) → Carrier ℕ t → Value → Carrier ℕ t
read_as string_wire fallback (text s) = s
read_as uint16_wire fallback (number n) = n
read_as bool_wire fallback (truth b) = b
read_as double_wire fallback (number n) = n
read_as t fallback v = fallback

abbrev pub encode : (ts : List Wire) → Tuple ℕ ts → List Value
encode [] values = []
encode (t ∷ ts) (v, values) = value_of t v ∷ encode ts values

abbrev decode : (ts : List Wire) → Tuple ℕ ts → List Value → Tuple ℕ ts
decode [] fallback message = tt
decode (t ∷ ts) (first, fallback) [] = (first, fallback)
decode (t ∷ ts) (first, fallback) (v ∷ message) = (read_as t first v, decode ts fallback message)

read_as-value_of : (t : Wire) (fallback v : Carrier ℕ t) → read_as t fallback (value_of t v) ≡ v
read_as-value_of string_wire fallback v = refl
read_as-value_of uint16_wire fallback v = refl
read_as-value_of bool_wire fallback v = refl
read_as-value_of double_wire fallback v = refl

pub decode-encode :
    (ts : List Wire) (fallback values : Tuple ℕ ts) → decode ts fallback (encode ts values) ≡ values
decode-encode [] fallback values = refl
decode-encode (t ∷ ts) (first, fallback) (v, values) =
    λ i. (read_as-value_of t first v i, decode-encode ts fallback values i)

abbrev empty_value : (t : Wire) → Carrier ℕ t
empty_value string_wire = []
empty_value uint16_wire = 0
empty_value bool_wire = false
empty_value double_wire = 0

abbrev empty_values : (ts : List Wire) → Tuple ℕ ts
empty_values [] = tt
empty_values (t ∷ ts) = (empty_value t, empty_values ts)

abbrev send : (ts : List Wire) → Tuple ℕ ts → World → World
send ts values w = encode ts values ∷ w

abbrev receive : (ts : List Wire) → Tuple ℕ ts → Action World (Bool × Tuple ℕ ts)
receive ts fallback [] = ((false, fallback), [])
receive ts fallback (message ∷ w) = ((true, decode ts fallback message), w)

-- A message that reaches an adapter: it calls the stub, or is dropped.
abbrev serve_by : Option (StubDispatcher World ℕ Unit) → List Value → World → World
serve_by none message w = w
serve_by (some d) message w =
    d.stub_method tt (decode d.ins (empty_values d.ins) message) (send d.outs) w

abbrev pub serve : List (ℕ × StubDispatcher World ℕ Unit) → ℕ → List Value → World → World
serve adapter method = serve_by (dispatcher_of method adapter)

-- The library in front of an adapter.
abbrev pub fake_api : List (ℕ × StubDispatcher World ℕ Unit) → CommonApi World ℕ
fake_api adapter = record {
  CallStatus = Bool;
  CallInfo = ℕ;
  ClientId = Unit;
  CallFuture = World → World;
  VoidFuture = Unit;
  EventGroupId = Unit;
  EventType = Unit;
  ReliabilityType = Unit;
  undefined_eventgroup = tt;
  et_event = tt;
  rt_unreliable = tt;
  success = true;
  default_call_info = 0;
  undeployed = empty_value;
  call_method_with_reply = λ ins outs method reliable little_endian info args fallback w.
      receive outs fallback (serve adapter method (encode ins args) w);
  call_method_async = λ ins outs method reliable little_endian info args on_reply fallback w. (
    λ later.
        let ((status, outputs), w2) =
          receive outs fallback (serve adapter method (encode ins args) later) in
        on_reply status outputs w2,
    w,
  );
  send_event = λ carries event little_endian values w. (number event ∷ encode carries values) ∷ w;
  get_completion_future = λ w. (tt, w);
  deinit = λ w. w;
}

pub serve_lem :
    (adapter : List (ℕ × StubDispatcher World ℕ Unit)) (method : ℕ)
    (d : StubDispatcher World ℕ Unit) (args : Tuple ℕ d.ins) (w : World)
    → dispatcher_of method adapter ≡ some d
    → serve adapter method (encode d.ins args) w ≡ d.stub_method tt args (send d.outs) w
serve_lem adapter method d args w found =
    ap (λ o. serve_by o (encode d.ins args) w) found
    ∙ ap (λ values. d.stub_method tt values (send d.outs) w)
        (decode-encode d.ins (empty_values d.ins) args)

pub receive_nothing :
    (ts : List Wire) (fallback : Tuple ℕ ts) (w : World)
    → is_empty w ≡ true
    → let ((ok, values), w') = receive ts fallback w in (ok ≢ true) × (values ≡ fallback)
receive_nothing ts fallback [] silent = (λ e. cc, refl)
receive_nothing ts fallback (message ∷ w) silent = cc

unfoldable pub fake_bus :
    (adapter : List (ℕ × StubDispatcher World ℕ Unit)) → Bus (fake_api adapter) adapter
fake_bus adapter = record {
  client = tt;
  send_reply = send;
  take_reply = receive;
  taken = λ outs fallback answer w i. ((true, decode-encode outs fallback answer i), w);
  is_unanswered = is_empty;
  fails = receive_nothing;
  fulfilled = λ future w. future w;
  delivers = λ method d little_endian info args fallback w found has order.
      ap (receive d.outs fallback) (serve_lem adapter method d args w found);
  delivers_async = λ method d little_endian info args on_reply fallback w found has order.
      ap
        (λ later.
          let ((status, outputs), w2) = receive d.outs fallback later in on_reply status outputs w2)
        (serve_lem adapter method d args w found);
}
