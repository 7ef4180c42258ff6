-- ===== src/Demo/CloudListener/Closing.antt =====
-- src/main.cpp: `runCloudListener` closes what it opens.
use connected_vehicle_platfo.Prelude.{
  ℕ, ◌+◌, ◌≡◌, refl, ◌∙◌, inl, inr, Bool-cases, false, not, Option, none, some, ℤ, pos, is_negative,
  eqb_ℤ, is_empty, Text, arith,
}
use connected_vehicle_platfo.Platform.{Platform}
use connected_vehicle_platfo.Sockets.{Sockets, Descriptors, own, own-negative, Address, htons}
use connected_vehicle_platfo.Demo.CloudListener.{
  report, serve_client, serve, start_listening, announcement, run_cloud_listener,
  cloud_listener_buf_size, loopback,
}

module _ {W : Type 0} (os : Sockets W) (platform : Platform W) (fds : Descriptors os)
    (opened-write : (text : Text) (w : W) (d : ℤ)
      → fds.opened (platform.write_stdout text w) d ≡ fds.opened w d) where
  open fds use {opened}

  opened-report :
      (received : Option Text) (w : W) (d : ℤ)
      → opened (report os platform received w) d ≡ opened w d
  unfolding report
  opened-report none w d = refl
  opened-report (some received) w d = elim (Bool-cases (is_empty received)) [
    | inl e ↦ rw e
    | inr e ↦ rw e (opened-write _ w d)
  ]

  opened-serve_client :
      (client_fd : ℤ) (w : W) (n : ℕ) (d : ℤ)
      → opened w d ≡ n + own client_fd d
      → opened (serve_client os platform client_fd w) d ≡ n
  unfolding serve_client
  opened-serve_client client_fd w n d h = elim (Bool-cases (is_negative client_fd)) [
    | inl e ↦ rw e (omega (arith, own-negative client_fd d e))
    | inr valid ↦
        let (received, w') = os.recv client_fd cloud_listener_buf_size w in
        rw valid (
          fds.opened-close client_fd (report os platform received w') d valid n (
            opened-report received w' d
            ∙ fds.opened-recv client_fd cloud_listener_buf_size w d
            ∙ h))
  ]

  opened-serve :
      (port : ℕ) (server_fd : ℤ) (w : W) (n : ℕ) (d : ℤ)
      → is_negative server_fd ≡ false
      → opened w d ≡ n + own server_fd d
      → opened (serve os platform port server_fd w) d ≡ n
  unfolding serve
  opened-serve port server_fd w n d valid h =
      let w1 = platform.write_stdout (announcement port) w in
      let (client_fd, w2) = os.accept server_fd w1 in
      let held : opened w2 d ≡ n + own server_fd d + own client_fd d =
        omega (arith, fds.opened-accept server_fd w1 d, opened-write (announcement port) w d) in
      fds.opened-close server_fd (serve_client os platform client_fd w2) d valid n
        (opened-serve_client client_fd w2 (n + own server_fd d) d held)

  opened-start_listening :
      (port : ℕ) (server_fd : ℤ) (w : W) (n : ℕ) (d : ℤ)
      → is_negative server_fd ≡ false
      → opened w d ≡ n + own server_fd d
      → opened (start_listening os platform port server_fd w) d ≡ n
  unfolding start_listening
  opened-start_listening port server_fd w n d valid h =
      let a : Address = record { sin_addr = loopback; sin_port = htons port } in
      let (bound, w1) = os.bind server_fd a w in
      let (listening, w2) = os.listen server_fd 1 w1 in
      let held1 = fds.opened-bind server_fd a w d ∙ h in
      let held2 = fds.opened-listen server_fd 1 w1 d ∙ held1 in
      elim (Bool-cases (not (eqb_ℤ bound (pos 0)))) [
        | inl failed ↦ rw failed (fds.opened-close server_fd w1 d valid n held1)
        | inr ready ↦ rw ready (elim (Bool-cases (not (eqb_ℤ listening (pos 0)))) [
          | inl failed ↦ rw failed (fds.opened-close server_fd w2 d valid n held2)
          | inr listens ↦ rw listens (opened-serve port server_fd w2 n d valid held2)
        ])
      ]

  -- Where printing opens and closes nothing, the listener leaves open exactly the descriptors that
  -- were open before, on every path: no socket, no port to bind or listen on, no connection,
  -- nothing received.
  pub opened-run_cloud_listener :
      (port : ℕ) (w : W) (d : ℤ) → opened (run_cloud_listener os platform port w) d ≡ opened w d
  unfolding run_cloud_listener
  opened-run_cloud_listener port w d =
      let (server_fd, w1) = os.socket w in
      elim (Bool-cases (is_negative server_fd)) [
        | inl failed ↦
            rw failed (omega (arith, fds.opened-socket w d, own-negative server_fd d failed))
        | inr valid ↦
            rw valid (
              opened-start_listening port server_fd w1 (opened w d) d valid (fds.opened-socket w d))
      ]
