-- ===== src/MqttClient/Paho.antt =====
-- src/MqttClient/mqtt_client.cpp: `PahoMqttBackend`, over the Paho library, which is a parameter: a
-- call of the library returns, or throws an exception (`none`). Both leave a world behind.
pub mod Loss
mod Guards
use connected_vehicle_platfo.Prelude.{
  ℕ, Bool, false, true, ◌&&◌, Option, none, some, ℤ, eqb_ℤ, Text, Action, if◌then◌else◌,
}
use connected_vehicle_platfo.MqttClient.Interface.{IMqttBackend}

abbrev pub keep_alive_seconds : ℕ
keep_alive_seconds = 20

abbrev pub operation_timeout_sec : ℕ
operation_timeout_sec = 5

-- The options that `connect` sets.
pub record ConnectOptions : Type 0 where
  pub keep_alive_interval : ℕ
  pub clean_session : Bool

-- mqtt::async_client and mqtt::token, as far as the backend uses them.
pub record PahoLibrary (W : Type 0) : Type 1 where
  pub Client : Type 0
  pub Token : Type 0
  pub create : Text → Text → Action W (Option Client)
  pub destroy : Client → W → W
  pub connect : Client → ConnectOptions → Action W (Option Token)
  pub disconnect : Client → Action W (Option Token)
  pub publish : Client → Text → Text → ℤ → Bool → Action W (Option Token)
  pub subscribe : Client → Text → ℤ → Action W (Option Token)
  pub wait_for : Token → ℕ → Action W (Option Bool)
  pub return_code : Token → W → ℤ
  pub is_connected : Client → W → Bool
  pub success : ℤ

-- Inside a `try` block: the rest is skipped after an exception.
abbrev then_try :
    {W A B : Type 0} → Action W (Option A) → (A → Action W (Option B)) → Action W (Option B)
then_try m f w = let (r, w') = m w in elim r [ none ↦ (none, w') | some a ↦ f a w' ]

module _ {W : Type 0} (paho : PahoLibrary W) where
  open paho use {Client, Token, create, destroy, wait_for, return_code, success}

  pub record PahoMqttBackend : Type 0 where
    pub client : Option Client
    pub connected : Bool

  -- A freshly made backend.
  abbrev pub initial : PahoMqttBackend
  initial = record { client = none; connected = false }

  abbrev options : ConnectOptions
  options = record { keep_alive_interval = keep_alive_seconds; clean_session = true }

  -- A call of the library that gives a token, then the wait for that token.
  attempt : Action W (Option Token) → Action W (Option Token)
  attempt call =
      then_try call (λ tok. then_try (wait_for tok operation_timeout_sec) (λ _ w. (some tok, w)))

  -- `client_ = std::make_unique<...>`: the old client is destroyed after the new one is made.
  replace : Option Client → W → W
  replace none w = w
  replace (some old) w = destroy old w

  -- The end of the `try` block of `connect`, with the new client in place.
  conclude : Client → Option Token → W → Bool × (PahoMqttBackend × W)
  conclude new none w = (false, (record { client = some new; connected = false }, w))
  conclude new (some tok) w =
      let up = paho.is_connected new w in (up, (record { client = some new; connected = up }, w))

  -- After `make_unique`, which throws or gives the new client.
  with_new : Option Client → Action (PahoMqttBackend × W) Bool
  with_new none (b, w) = (false, (record b { connected = false }, w))
  with_new (some new) (b, w) =
      let (r, w') = attempt (paho.connect new options) (replace b.client w) in conclude new r w'

  unfoldable pub connect : Text → Text → Action (PahoMqttBackend × W) Bool
  unfolding attempt replace conclude with_new
  connect broker client_id (b, w) =
      let (made, w') = create broker client_id w in
      let fresh_session = with_new made (b, w') in
      if b.connected then (true, (b, w)) else fresh_session

  -- The `try` block of `disconnect`: `false` is an exception.
  close : Option Client → Action W Bool
  unfolding attempt
  close none w = (true, w)
  close (some client) w =
      let (r, w') = attempt (paho.disconnect client) w in
      elim r [ none ↦ (false, w') | some tok ↦ (true, w') ]

  unfoldable pub disconnect : Action (PahoMqttBackend × W) Bool
  unfolding close
  disconnect (b, w) = let (ok, w') = close b.client w in (ok, (record b { connected = false }, w'))

  -- `tok->get_return_code() == mqtt::SUCCESS`, and `false` after an exception.
  succeeded : Option Token → W → Bool
  succeeded none w = false
  succeeded (some tok) w = eqb_ℤ (return_code tok w) success

  -- `publish` and `subscribe`: nothing is called without a client or while not connected.
  request : Option Client → (Client → Action W (Option Token)) → Action (PahoMqttBackend × W) Bool
  unfolding attempt succeeded
  request none call s = (false, s)
  request (some client) call (b, w) =
      let (r, w') = attempt (call client) w in
      if b.connected then (succeeded r w', (b, w')) else (false, (b, w))

  unfoldable pub publish : Text → Text → ℤ → Action (PahoMqttBackend × W) Bool
  unfolding request
  publish topic payload qos (b, w) =
      request b.client (λ client. paho.publish client topic payload qos false) (b, w)

  unfoldable pub subscribe : Text → ℤ → Action (PahoMqttBackend × W) Bool
  unfolding request
  subscribe topic qos (b, w) = request b.client (λ client. paho.subscribe client topic qos) (b, w)

  client_up : Option Client → W → Bool
  client_up none w = false
  client_up (some client) w = paho.is_connected client w

  unfoldable pub is_connected : PahoMqttBackend × W → Bool
  unfolding client_up
  is_connected (b, w) = b.connected && client_up b.client w

  -- `PahoMqttBackend : public IMqttBackend`.
  abbrev pub paho_backend : IMqttBackend (PahoMqttBackend × W)
  paho_backend = record {
    connect = connect;
    disconnect = disconnect;
    publish = publish;
    subscribe = subscribe;
    is_connected = is_connected;
  }

  -- The constructor of `MqttClient`: a null `backend` stands for a new Paho backend.
  abbrev pub backend_or_paho :
      Option (IMqttBackend (PahoMqttBackend × W)) → IMqttBackend (PahoMqttBackend × W)
  backend_or_paho none = paho_backend
  backend_or_paho (some backend) = backend
