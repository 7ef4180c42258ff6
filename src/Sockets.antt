-- ===== src/Sockets.antt =====
-- The socket calls of the operating system that src/SomeipClient/someip_client.cpp and src/main.cpp
-- make. They are a parameter of the model; a descriptor is an `int`, negative for failure.
pub mod Fake
use connected_vehicle_platfo.Prelude.{
  ℕ, ◌+◌, ◌/◌, ◌%◌, ◌≡◌, Bool, true, false, Option, [], ◌∷◌, ℤ, is_negative, eqb_ℤ, Text, Action,
  if◌then◌else◌, arith,
}

-- sockaddr_in for AF_INET: the address and the two bytes of the port.
pub record Address : Type 0 where
  pub sin_addr : ℕ
  pub sin_port : Text

-- `htons`, by the bytes that it leaves in memory.
abbrev pub htons : ℕ → Text
htons port = (port / 256 % 256) ∷ (port % 256) ∷ []

pub record Sockets (W : Type 0) : Type 0 where
  pub socket : Action W ℤ  -- AF_INET, SOCK_STREAM
  pub close : ℤ → W → W
  pub inet_pton : Text → Option ℕ  -- `none` where the result is not 1
  pub connect : ℤ → Address → Action W ℤ
  pub send : ℤ → Text → Action W ℤ
  pub bind : ℤ → Address → Action W ℤ
  pub listen : ℤ → ℕ → Action W ℤ
  pub accept : ℤ → Action W ℤ
  pub recv : ℤ → ℕ → Action W (Option Text)  -- `none` for -1, else the bytes received

-- One if `d` is the descriptor `fd`, and `fd` is one.
unfoldable pub own : ℤ → ℤ → ℕ
own fd d = if is_negative fd then 0 else if eqb_ℤ fd d then 1 else 0

pub own-negative : (fd d : ℤ) → is_negative fd ≡ true → own fd d ≡ 0
unfolding own
own-negative fd d h = ground arith

-- Which descriptors are open, as POSIX documents the calls: `socket` and `accept` open the one that
-- they return, `close` closes its argument, and the other calls open and close none.
pub record Descriptors {W : Type 0} (os : Sockets W) : Type 0 where
  pub opened : W → ℤ → ℕ
  pub opened-socket :
      (w : W) (d : ℤ) → opened (os.socket w).1 d ≡ opened w d + own (os.socket w).0 d
  pub opened-close :
      (fd : ℤ) (w : W) (d : ℤ)
      → is_negative fd ≡ false
      → (n : ℕ) → opened w d ≡ n + own fd d
      → opened (os.close fd w) d ≡ n
  pub opened-connect :
      (fd : ℤ) (a : Address) (w : W) (d : ℤ) → opened (os.connect fd a w).1 d ≡ opened w d
  pub opened-send :
      (fd : ℤ) (frame : Text) (w : W) (d : ℤ) → opened (os.send fd frame w).1 d ≡ opened w d
  pub opened-bind :
      (fd : ℤ) (a : Address) (w : W) (d : ℤ) → opened (os.bind fd a w).1 d ≡ opened w d
  pub opened-listen :
      (fd : ℤ) (backlog : ℕ) (w : W) (d : ℤ) → opened (os.listen fd backlog w).1 d ≡ opened w d
  pub opened-accept :
      (fd : ℤ) (w : W) (d : ℤ) → opened (os.accept fd w).1 d ≡ opened w d + own (os.accept fd w).0 d
  pub opened-recv :
      (fd : ℤ) (size : ℕ) (w : W) (d : ℤ) → opened (os.recv fd size w).1 d ≡ opened w d
