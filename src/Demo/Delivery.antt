-- ===== src/Demo/Delivery.antt =====
-- src/SomeipClient/someip_client.cpp against src/main.cpp: what the client publishes on a connection
-- that the listener has accepted is what the listener prints.
pub mod Sample
pub mod Round
mod Tests
use connected_vehicle_platfo.Prelude.{
  ℕ, zero, suc, ◌+◌, ◌-◌, ◌≤◌, ◌<◌, ◌≡◌, refl, sym, ap, subst, ◌∙◌, ◌⊎◌, inl, inr, true, false, not,
  ◌||◌, some, [], ◌∷◌, ◌++◌, ℤ, pos, is_negative, eqb_ℤ, Text, codes, length, length-take, take,
  is_empty, Bool-cases, arith,
}
use connected_vehicle_platfo.Platform.{Platform}
use connected_vehicle_platfo.Sockets.{Sockets}
use connected_vehicle_platfo.SomeipClient.{SomeipClient, frame, publish}
use connected_vehicle_platfo.SomeipClient.Frame.{ByteOrder, length-frame_of}
use connected_vehicle_platfo.Demo.CloudListener.{
  cloud_listener_buf_size, payload_of, report, serve_client,
}
use connected_vehicle_platfo.Demo.CloudListener.Payload.{payload_of-frame_of}

-- A TCP connection from the descriptor of a client to one that the listener holds, as POSIX
-- documents it: a send that returns the length of its data has put all of it behind the bytes that
-- are in flight, and a receive takes some of those, from the oldest on, if there are any.
pub record Connection {W : Type 0} (os : Sockets W) (client_fd listener_fd : ℤ) : Type 0 where
  pub in_flight : W → Text
  pub sends :
      (bytes : Text) (w : W)
      → eqb_ℤ (os.send client_fd bytes w).0 (pos (length bytes)) ≡ true
      → in_flight (os.send client_fd bytes w).1 ≡ in_flight w ++ bytes
  pub receives :
      (size : ℕ) (w : W)
      → 0 < size
      → 0 < length (in_flight w)
      → (n : ℕ) × (0 < n)
        × (n ≤ size)
        × ((os.recv listener_fd size w).0 ≡ some (take n (in_flight w)))

take-not_empty : (n : ℕ) (xs : Text) → 0 < n → 0 < length xs → is_empty (take n xs) ≡ false
take-not_empty (suc n) (x ∷ xs) positive some_bytes = refl
take-not_empty (suc n) [] positive some_bytes = absurd (omega arith)
take-not_empty zero xs positive some_bytes = absurd (omega arith)

module _ {W : Type 0} (os : Sockets W) (platform : Platform W) (order : ByteOrder) where
  -- The line for a payload of which the receive has brought `n` bytes with the header.
  abbrev pub line : Text → Text
  line printed = codes "[Cloud] received SOME/IP payload: " ++ printed ++ codes "\n"

  -- A publication that succeeds has sent the frame.
  publish_sent :
      (topic payload : Text) (qos : ℤ) (c : SomeipClient) (w : W)
      → (publish os order topic payload qos (c, w)).0 ≡ true
      → let (sent, w1) = os.send c.socket_fd (frame os order c payload) w in
        (eqb_ℤ sent (pos (length (frame os order c payload))) ≡ true)
        × ((publish os order topic payload qos (c, w)).1 ≡ (c, w1))
  unfolding publish
  publish_sent topic payload qos c w ok =
      elim (Bool-cases (not c.connected || is_negative c.socket_fd)) [
        | inl down ↦ absurd (ground arith)
        | inr up ↦ (ground arith, rw up refl)
      ]

  -- Where a receive brings bytes, the listener prints what they hold behind the header.
  serve_client-prints :
      (listener_fd : ℤ) (received : Text) (w : W)
      → is_negative listener_fd ≡ false
      → (os.recv listener_fd cloud_listener_buf_size w).0 ≡ some received
      → is_empty received ≡ false
      → serve_client os platform listener_fd w
        ≡ os.close listener_fd (
            platform.write_stdout
              (line (payload_of received))
              (os.recv listener_fd cloud_listener_buf_size w).1)
  unfolding serve_client report
  serve_client-prints listener_fd received w valid brought filled = rw (valid, brought, filled) refl

  -- With a payload in flight: the listener receives at least one byte and at most its buffer, prints
  -- one line, and closes the connection. It prints the whole payload if what it has received covers
  -- the header and the payload, and else what has come of the payload.
  abbrev pub IsServed : ℤ → Text → W → Type 0
  IsServed listener_fd payload w =
      (received : Text) × ((os.recv listener_fd cloud_listener_buf_size w).0 ≡ some received)
      × (0 < length received)
      × (length received ≤ cloud_listener_buf_size)
      × ((printed : Text) × (((8 + length payload ≤ length received) × (printed ≡ payload))
            ⊎ ((length received < 8 + length payload)
                × (printed ≡ take (length received - 8) payload)))
          × (serve_client os platform listener_fd w
              ≡ os.close listener_fd (
                  platform.write_stdout (line printed)
                    (os.recv listener_fd cloud_listener_buf_size w).1)))

  -- The first n bytes of the frame, at the length that they have.
  received_part :
      (c : SomeipClient) (n : ℕ) (payload : Text)
      → let received = take n (frame os order c payload) in
        let printed = payload_of received in
        ((8 + length payload ≤ length received) × (printed ≡ payload))
        ⊎ ((length received < 8 + length payload) × (printed ≡ take (length received - 8) payload))
  received_part c n payload =
      let whole =
        length-frame_of order c.someip_config.service_id c.someip_config.method_id payload in
      let part = length-take n (frame os order c payload) in
      elim (payload_of-frame_of order c.someip_config.service_id c.someip_config.method_id n
        payload) [
          | inl (covers, same) ↦ inl (omega (arith, whole, part), same)
          | inr (cut, same) ↦
              let size : length (take n (frame os order c payload)) ≡ n =
                omega (arith, whole, part) in
              inr (omega (arith, size), same ∙ ap (λ (k : ℕ). take (k - 8) payload) (sym size))
        ]

  -- On a TCP connection from the SOME/IP client to a valid descriptor of the listener, with nothing
  -- in flight, a payload whose publication succeeds is printed as far as it is received.
  pub published_is_printed :
      (c : SomeipClient) (listener_fd : ℤ) (connection : Connection os c.socket_fd listener_fd)
      (topic payload : Text) (qos : ℤ) (w : W)
      → connection.in_flight w ≡ []
      → is_negative listener_fd ≡ false
      → (publish os order topic payload qos (c, w)).0 ≡ true
      → IsServed listener_fd payload (publish os order topic payload qos (c, w)).1.1
  published_is_printed c listener_fd connection topic payload qos w quiet valid ok =
      let (all_sent, after) = publish_sent topic payload qos c w ok in
      let in_flight =
        ap (λ s. connection.in_flight s.1) after
        ∙ connection.sends (frame os order c payload) w all_sent
        ∙ ap (λ before. before ++ frame os order c payload) quiet in
      let whole =
        length-frame_of order c.someip_config.service_id c.someip_config.method_id payload in
      let some_bytes : 0 < length (connection.in_flight w1) = rw in_flight (omega (arith, whole)) in
      let (n, positive, fits, brought) =
        connection.receives cloud_listener_buf_size w1 (omega arith) some_bytes in
      let received = brought ∙ ap (λ bytes. some (take n bytes)) in_flight in
      let part = length-take n (frame os order c payload) in
      (
        take n (frame os order c payload),
        received,
        omega (arith, part, whole, positive),
        omega (arith, part, fits),
        (
          payload_of (take n (frame os order c payload)),
          received_part c n payload,
          serve_client-prints listener_fd (take n (frame os order c payload)) w1 valid received (
              take-not_empty n (frame os order c payload) positive
                (subst (λ bytes. 0 < length bytes) in_flight some_bytes)),
        ),
      )
    where
      w1 : W
      w1 = (publish os order topic payload qos (c, w)).1.1
