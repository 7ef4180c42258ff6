-- ===== src/Demo/CloudListener.antt =====
-- src/main.cpp: `runCloudListener` accepts one connection, receives once, and prints the payload.
pub mod Payload
pub mod Closing
use connected_vehicle_platfo.Prelude.{
  ℕ, ◌-◌, Bool, not, ◌||◌, Option, none, some, [], ◌++◌, ℤ, pos, is_negative, eqb_ℤ, ltb, min, Text,
  codes, show_ℕ, length, take, drop, is_empty, Action, if◌then◌else◌,
}
use connected_vehicle_platfo.Platform.{Platform}
use connected_vehicle_platfo.Sockets.{Sockets, Address, htons}

abbrev pub cloud_listener_buf_size : ℕ
cloud_listener_buf_size = 2048

abbrev pub someip_header_size : ℕ
someip_header_size = 8

-- INADDR_LOOPBACK.
abbrev pub loopback : ℕ
loopback = 0x7f000001

-- What stands in the buffer from the payload's offset on, after `length received` bytes came in.
-- Offset and size together are that length, so the copy stays within the received bytes.
unfoldable pub payload_of : Text → Text
payload_of received =
    let payload_size = length received - someip_header_size in
    let payload_offset = min someip_header_size (length received) in
    if ltb 0 payload_size then take payload_size (drop payload_offset received) else []

pub announcement : ℕ → Text
announcement port =
    codes "[Cloud] listening for SOME/IP traffic on localhost:" ++ show_ℕ port ++ codes "\n"

module _ {W : Type 0} (os : Sockets W) (platform : Platform W) where
  open os use {socket, close, bind, listen, accept, recv}
  open platform use {write_stdout}

  -- After `recv`: -1 and an orderly shutdown print nothing.
  unfoldable pub report : Option Text → W → W
  unfolding payload_of
  report none w = w
  report (some received) w =
      if is_empty received
      then w
      else write_stdout
          (codes "[Cloud] received SOME/IP payload: " ++ payload_of received ++ codes "\n") w

  unfoldable pub serve_client : ℤ → W → W
  unfolding report
  serve_client client_fd w =
      let (received, w') = recv client_fd cloud_listener_buf_size w in
      if is_negative client_fd then w else close client_fd (report received w')

  -- From `listen` having succeeded to the end.
  serve : ℕ → ℤ → W → W
  unfolding serve_client announcement
  serve port server_fd w =
      let (client_fd, w') = accept server_fd (write_stdout (announcement port) w) in
      close server_fd (serve_client client_fd w')

  start_listening : ℕ → ℤ → W → W
  unfolding serve
  start_listening port server_fd w =
      let address : Address = record { sin_addr = loopback; sin_port = htons port } in
      let (bound, w1) = bind server_fd address w in
      let (listening, w2) = listen server_fd 1 w1 in
      if not (eqb_ℤ bound (pos 0))
      then close server_fd w1
      else if not (eqb_ℤ listening (pos 0))
      then close server_fd w2
      else serve port server_fd w2

  unfoldable pub run_cloud_listener : ℕ → W → W
  unfolding start_listening
  run_cloud_listener port w =
      let (server_fd, w1) = socket w in
      if is_negative server_fd then w1 else start_listening port server_fd w1
