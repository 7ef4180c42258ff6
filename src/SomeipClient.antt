-- ===== src/SomeipClient.antt =====
-- include/connected_vehicle_platform/someip_client.hpp and src/SomeipClient/someip_client.cpp: a
-- client that sends framed payloads over a TCP socket. Each method holds `mutex_` throughout.
pub mod Frame
pub mod Lifecycle
mod Tests
use connected_vehicle_platfo.Prelude.{
  ℕ, Bool, false, true, not, ◌&&◌, ◌||◌, Option, none, some, ℤ, pos, negsuc, is_negative, eqb_ℤ,
  Text, codes, length, Action, if◌then◌else◌,
}
use connected_vehicle_platfo.MqttClient.Interface.{MqttConfig, IMqttClient, default_qos}
use connected_vehicle_platfo.Sockets.{Sockets, Address, htons}
use Frame.{ByteOrder, frame_of}

abbrev pub invalid_socket_fd : ℤ
invalid_socket_fd = negsuc 0

abbrev pub default_someip_host : Text
default_someip_host = codes "127.0.0.1"

abbrev pub default_ecu_client_id : Text
default_ecu_client_id = codes "ECU_001"

abbrev pub telemetry_topic : Text
telemetry_topic = codes "vehicle/telemetry"

abbrev pub command_topic : Text
command_topic = codes "vehicle/commands"

pub record SomeipConfig : Type 0 where
  pub host : Text
  pub port : ℕ
  pub service_id : ℕ
  pub method_id : ℕ
  pub client_id : Text

-- The defaults of the fields.
abbrev pub default_config : SomeipConfig
default_config = record {
  host = default_someip_host;
  port = 30509;
  service_id = 0x1234;
  method_id = 0x0001;
  client_id = default_ecu_client_id;
}

pub record SomeipClient : Type 0 where
  pub someip_config : SomeipConfig
  pub mqtt_config : MqttConfig
  pub socket_fd : ℤ
  pub connected : Bool

unfoldable pub make : SomeipConfig → SomeipClient
make config = record {
  someip_config = config;
  mqtt_config = record {
    broker = config.host;
    client_id = config.client_id;
    telemetry_topic = telemetry_topic;
    command_topic = command_topic;
    qos = default_qos;
  };
  socket_fd = invalid_socket_fd;
  connected = false;
}

module _ {W : Type 0} (os : Sockets W) (order : ByteOrder) where
  open os use {socket, close, inet_pton, send}

  -- `::close(socket_fd_); socket_fd_ = kInvalidSocketFd; return false;`
  abandon : Action (SomeipClient × W) Bool
  abandon (c, w) = (false, (record c { socket_fd = invalid_socket_fd }, close c.socket_fd w))

  -- `connect` from the address on, with the socket made.
  dial : Option ℕ → Action (SomeipClient × W) Bool
  unfolding abandon
  dial none s = abandon s
  dial (some sin_addr) (c, w) =
      let address : Address = record {
        sin_addr = sin_addr;
        sin_port = htons c.someip_config.port;
      } in
      let (status, w') = os.connect c.socket_fd address w in
      if eqb_ℤ status (pos 0) then (true, (record c { connected = true }, w')) else abandon (c, w')

  unfoldable pub connect : Action (SomeipClient × W) Bool
  unfolding dial
  connect (c, w) =
      let (fd, w') = socket w in
      let c' = record c { socket_fd = fd } in
      if c.connected
      then (true, (c, w))
      else if is_negative fd
      then (false, (c', w'))
      else dial (inet_pton c.someip_config.host) (c', w')

  unfoldable pub disconnect : Action (SomeipClient × W) Bool
  disconnect (c, w) = (
    true,
    (
      record c { socket_fd = invalid_socket_fd; connected = false },
      (if is_negative c.socket_fd then w else close c.socket_fd w),
    ),
  )

  unfoldable pub reconnect : Action (SomeipClient × W) Bool
  unfolding connect disconnect
  reconnect s = connect (disconnect s).1

  -- The frame that `publish` sends.
  abbrev pub frame : SomeipClient → Text → Text
  frame c payload = frame_of order c.someip_config.service_id c.someip_config.method_id payload

  unfoldable pub publish : Text → Text → ℤ → Action (SomeipClient × W) Bool
  publish topic payload qos (c, w) =
      let (sent, w') = send c.socket_fd (frame c payload) w in
      if not c.connected || is_negative c.socket_fd
      then (false, (c, w))
      else (eqb_ℤ sent (pos (length (frame c payload))), (c, w'))

  -- The overload with a payload alone.
  unfoldable pub publish_payload : Text → Action (SomeipClient × W) Bool
  unfolding publish
  publish_payload payload s = publish (codes "") payload default_qos s

  unfoldable pub is_connected : SomeipClient × W → Bool
  is_connected (c, w) = c.connected && not (is_negative c.socket_fd)

  unfoldable pub subscribe : Text → ℤ → Action (SomeipClient × W) Bool
  unfolding is_connected
  subscribe topic qos s = (is_connected s, s)

  -- `SomeipClient : public IMqttClient`.
  abbrev pub someip_client : IMqttClient (SomeipClient × W)
  someip_client = record {
    connect = connect;
    disconnect = disconnect;
    reconnect = reconnect;
    publish = publish;
    subscribe = subscribe;
    is_connected = is_connected;
    config = λ s. s.0.mqtt_config;
  }
