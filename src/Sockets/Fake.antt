-- ===== src/Sockets/Fake.antt =====
-- An operating system for examples: every call succeeds, the world counts the open descriptors, a
-- connection has descriptor 3 or 4, and `recv` gives ten bytes.
use connected_vehicle_platfo.Prelude.{
  ℕ, ◌+◌, ◌-◌, ◌≡◌, refl, false, some, [], ℤ, pos, codes, length, arith,
}
use connected_vehicle_platfo.Platform.{Platform}
use connected_vehicle_platfo.Sockets.{Sockets, Descriptors, own}

abbrev pub Open : Type 0
Open = ℤ → ℕ

abbrev pub nothing_open : Open
nothing_open d = 0

abbrev pub fake_os : Sockets Open
fake_os = record {
  socket = λ w. (pos 3, λ d. w d + own (pos 3) d);
  close = λ fd w d. w d - own fd d;
  inet_pton = λ host. some 0x7f000001;
  connect = λ fd a w. (pos 0, w);
  send = λ fd frame w. (pos (length frame), w);
  bind = λ fd a w. (pos 0, w);
  listen = λ fd backlog w. (pos 0, w);
  accept = λ fd w. (pos 4, λ d. w d + own (pos 4) d);
  recv = λ fd size w. (some (codes "0123456789"), w);
}

pub fake-close : (w : Open) (fd d : ℤ) (n : ℕ) → w d ≡ n + own fd d → w d - own fd d ≡ n
fake-close w fd d n h = omega arith

abbrev pub fake_descriptors : Descriptors fake_os
fake_descriptors = record {
  opened = λ w. w;
  opened-socket = λ w d. refl;
  opened-close = λ fd w d valid n h. fake-close w fd d n h;
  opened-connect = λ fd a w d. refl;
  opened-send = λ fd frame w d. refl;
  opened-bind = λ fd a w d. refl;
  opened-listen = λ fd backlog w d. refl;
  opened-accept = λ fd w d. refl;
  opened-recv = λ fd size w d. refl;
}

abbrev pub quiet_platform : Platform Open
quiet_platform = record {
  steady_now = λ w. (pos 0, w);
  sleep_for = λ ms w. w;
  local_time = λ format w. ([], w);
  write_stdout = λ text w. w;
  write_stderr = λ text w. w;
  create_directories = λ path w. w;
  open_append = λ path w. (false, w);
  write_file = λ path text w. w;
}
