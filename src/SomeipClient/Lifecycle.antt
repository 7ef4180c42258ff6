-- ===== src/SomeipClient/Lifecycle.antt =====
-- src/SomeipClient/someip_client.cpp: the two fields of the connection, and the descriptors that
-- the client opens and closes.
use connected_vehicle_platfo.Prelude.{
  ℕ, ◌+◌, ◌≡◌, refl, ◌∙◌, inl, inr, Bool-cases, pos, eqb_ℤ, Bool, false, true, not, ◌||◌, Option,
  none, some, List, [], ◌∷◌, ℤ, negsuc, is_negative, Text, arith,
}
use connected_vehicle_platfo.Sockets.{Sockets, Descriptors, own, own-negative, Address, htons}
use connected_vehicle_platfo.SomeipClient.Frame.{ByteOrder}
use connected_vehicle_platfo.SomeipClient.{
  SomeipClient, SomeipConfig, make, abandon, connect, disconnect, reconnect, publish, subscribe,
  is_connected, dial, frame,
}

pub data Call : Type 0 where
  connects disconnects reconnects : Call
  publishes : Text → Text → ℤ → Call
  subscribes : Text → ℤ → Call

-- The client is connected exactly while it holds a descriptor.
abbrev pub IsConsistent : SomeipClient → Type 0
IsConsistent c = c.connected ≡ not (is_negative c.socket_fd)

module _ {W : Type 0} (os : Sockets W) (order : ByteOrder) where
  pub step : Call → SomeipClient × W → Bool × (SomeipClient × W)
  step connects s = connect os order s
  step disconnects s = disconnect os order s
  step reconnects s = reconnect os order s
  step (publishes topic payload qos) s = publish os order topic payload qos s
  step (subscribes topic qos) s = subscribe os order topic qos s

  pub run : List Call → SomeipClient × W → SomeipClient × W
  run [] s = s
  run (call ∷ rest) s = run rest (step call s).1

  connect-IsConsistent :
      (s : SomeipClient × W) → IsConsistent s.0 → IsConsistent (connect os order s).1.0
  unfolding connect
  connect-IsConsistent (c, w) h = ground arith

  disconnect-IsConsistent : (s : SomeipClient × W) → IsConsistent (disconnect os order s).1.0
  unfolding disconnect
  disconnect-IsConsistent (c, w) = refl

  step-IsConsistent :
      (call : Call) (s : SomeipClient × W) → IsConsistent s.0 → IsConsistent (step call s).1.0
  unfolding step reconnect publish subscribe
  step-IsConsistent connects s h = connect-IsConsistent s h
  step-IsConsistent disconnects s h = disconnect-IsConsistent s
  step-IsConsistent reconnects s h =
      connect-IsConsistent ((disconnect os order s).1) (disconnect-IsConsistent s)
  step-IsConsistent (publishes topic payload qos) (c, w) h = ground arith
  step-IsConsistent (subscribes topic qos) s h = h

  run-IsConsistent_from :
      (calls : List Call) (s : SomeipClient × W) → IsConsistent s.0 → IsConsistent (run calls s).0
  unfolding run
  run-IsConsistent_from [] s h = h
  run-IsConsistent_from (call ∷ rest) s h =
      run-IsConsistent_from rest (step call s).1 (step-IsConsistent call s h)

  -- After any calls on a new SOME/IP client, whatever the operating system answers, the flag says
  -- exactly whether the descriptor is valid, and so does isConnected.
  pub run-IsConsistent :
      (calls : List Call) (config : SomeipConfig) (w : W)
      → let s = run calls (make config, w) in
        (s.0.connected ≡ not (is_negative s.0.socket_fd))
        × (is_connected os order s ≡ s.0.connected)
  unfolding make is_connected
  run-IsConsistent calls config w =
      let ok = run-IsConsistent_from calls (make config, w) refl in (ok, ground arith)

module _ {W : Type 0} (os : Sockets W) (order : ByteOrder) (fds : Descriptors os) where
  open fds use {opened, opened-socket, opened-close, opened-connect, opened-send}

  -- Of the open descriptors, `base` are other people's, and the rest is the client's own.
  abbrev pub Holds : (ℤ → ℕ) → SomeipClient × W → Type 0
  Holds base (c, w) = (d : ℤ) → opened w d ≡ base d + own c.socket_fd d

  abandon-Holds :
      (base : ℤ → ℕ) (s : SomeipClient × W)
      → is_negative s.0.socket_fd ≡ false
      → Holds base s
      → Holds base (abandon os order s).1
  unfolding abandon
  abandon-Holds base (c, w) valid h d =
      omega
        (arith, opened-close c.socket_fd w d valid (base d) (h d), own-negative (negsuc 0) d refl)

  dial-Holds :
      (base : ℤ → ℕ) (address : Option ℕ) (s : SomeipClient × W)
      → is_negative s.0.socket_fd ≡ false
      → Holds base s
      → Holds base (dial os order address s).1
  unfolding dial
  dial-Holds base none s valid h d = abandon-Holds base s valid h d
  dial-Holds base (some sin_addr) (c, w) valid h d =
      let a : Address = record { sin_addr = sin_addr; sin_port = htons c.someip_config.port } in
      let (status, w') = os.connect c.socket_fd a w in
      let held = λ (d' : ℤ). opened-connect c.socket_fd a w d' ∙ h d' in
      elim (Bool-cases (eqb_ℤ status (pos 0))) [
        | inl made ↦ rw made (held d)
        | inr failed ↦ rw failed (abandon-Holds base (c, w') valid held d)
      ]

  socket-Holds :
      (base : ℤ → ℕ) (c : SomeipClient) (w : W)
      → is_negative c.socket_fd ≡ true
      → Holds base (c, w)
      → (d : ℤ) → opened (os.socket w).1 d ≡ base d + own (os.socket w).0 d
  socket-Holds base c w free h d =
      omega (arith, opened-socket w d, h d, own-negative c.socket_fd d free)

  connect-Holds :
      (base : ℤ → ℕ) (s : SomeipClient × W)
      → IsConsistent s.0
      → Holds base s
      → Holds base (connect os order s).1
  unfolding connect
  connect-Holds base (c, w) ok h d = elim (Bool-cases c.connected) [
    | inl up ↦ rw up (h d)
    | inr down ↦
        let (fd, w') = os.socket w in
        let free : is_negative c.socket_fd ≡ true = ground arith in
        let held = socket-Holds base c w free h in
        rw down (elim (Bool-cases (is_negative fd)) [
          | inl failed ↦ rw failed (held d)
          | inr valid ↦ rw valid (
              dial-Holds base (os.inet_pton c.someip_config.host)
                (record c { socket_fd = fd; connected = false }, w') valid held d)
        ])
  ]

  disconnect-Holds :
      (base : ℤ → ℕ) (s : SomeipClient × W) → Holds base s → Holds base (disconnect os order s).1
  unfolding disconnect
  disconnect-Holds base (c, w) h d = elim (Bool-cases (is_negative c.socket_fd)) [
    | inl neg ↦
        rw neg (omega (arith, h d, own-negative c.socket_fd d neg, own-negative (negsuc 0) d refl))
    | inr valid ↦ rw valid (
        omega (
          arith,
          opened-close c.socket_fd w d valid (base d) (h d),
          own-negative (negsuc 0) d refl,
        ))
  ]

  publish-Holds :
      (base : ℤ → ℕ) (topic payload : Text) (qos : ℤ) (s : SomeipClient × W)
      → Holds base s
      → Holds base (publish os order topic payload qos s).1
  unfolding publish
  publish-Holds base topic payload qos (c, w) h d =
      elim (Bool-cases (not c.connected || is_negative c.socket_fd)) [
        | inl refused ↦ rw refused (h d)
        | inr sent ↦ rw sent (opened-send c.socket_fd (frame os order c payload) w d ∙ h d)
      ]

  step-Holds :
      (base : ℤ → ℕ) (call : Call) (s : SomeipClient × W)
      → IsConsistent s.0
      → Holds base s
      → Holds base (step os order call s).1
  unfolding step reconnect subscribe
  step-Holds base connects s ok h = connect-Holds base s ok h
  step-Holds base disconnects s ok h = disconnect-Holds base s h
  step-Holds base reconnects s ok h =
      connect-Holds base ((disconnect os order s).1) (disconnect-IsConsistent os order s)
        (disconnect-Holds base s h)
  step-Holds base (publishes topic payload qos) s ok h = publish-Holds base topic payload qos s h
  step-Holds base (subscribes topic qos) s ok h = h

  run-Holds :
      (base : ℤ → ℕ) (calls : List Call) (s : SomeipClient × W)
      → IsConsistent s.0
      → Holds base s
      → Holds base (run os order calls s)
  unfolding run
  run-Holds base [] s ok h = h
  run-Holds base (call ∷ rest) s ok h =
      run-Holds base rest (step os order call s).1 (step-IsConsistent os order call s ok)
        (step-Holds base call s ok h)

  -- After any calls on a new SOME/IP client, of the descriptors that were not open before, exactly
  -- the one that the client holds is open, if it holds one; and a disconnect after that leaves open
  -- what was open before the client was made. The socket calls open and close descriptors as POSIX
  -- documents them.
  pub no_descriptor_leak :
      (calls : List Call) (config : SomeipConfig) (w : W)
      → let s = run os order calls (make config, w) in
        ((d : ℤ) → opened s.1 d ≡ opened w d + own s.0.socket_fd d)
        × ((d : ℤ) → opened (disconnect os order s).1.1 d ≡ opened w d)
  unfolding make disconnect
  no_descriptor_leak calls config w =
      let s = run os order calls (make config, w) in
      let held : Holds (opened w) s =
        run-Holds (opened w) calls (make config, w) refl
          (λ d. omega (arith, own-negative (negsuc 0) d refl)) in
      (
        held,
        λ d. omega (arith, disconnect-Holds (opened w) s held d, own-negative (negsuc 0) d refl),
      )

  -- After any calls on a new SOME/IP client, whatever the operating system answers, the flag says
  -- exactly whether the descriptor is valid, and so does isConnected; of the descriptors that were
  -- not open before, exactly the one that the client holds is open, if it holds one; and a
  -- disconnect after that leaves open what was open before the client was made. The socket calls
  -- open and close descriptors as POSIX documents them.
  pub owns_socket :
      (calls : List Call) (config : SomeipConfig) (w : W)
      → let s = run os order calls (make config, w) in
        (s.0.connected ≡ not (is_negative s.0.socket_fd))
        × (is_connected os order s ≡ s.0.connected)
        × ((d : ℤ) → opened s.1 d ≡ opened w d + own s.0.socket_fd d)
        × ((d : ℤ) → opened (disconnect os order s).1.1 d ≡ opened w d)
  owns_socket calls config w =
      let (consistent, answer) = run-IsConsistent os order calls config w in
      let (held, released) = no_descriptor_leak calls config w in
      (consistent, answer, held, released)
