-- ===== src/Demo/Threads.antt =====
-- src/main.cpp: `main` with the service's worker, beside the thread of `runCloudListener`, step by
-- step. A step is one call that has returned; `accept` and `recv` return when POSIX says that they
-- do, and every call can fail. The port is the demonstration's own: nobody else listens or connects.
pub mod Join
pub mod Early
mod Tests
use connected_vehicle_platfo.Prelude.{Bool, true, false, ◌||◌, ◌≡◌}

-- Where `main` stands: inside `start` and before the client's `connect`; before `return 1`; while it
-- sleeps and the worker goes round; inside `stop`, where the worker leaves its loop; inside `join` of
-- the listener; at its end.
pub data Main : Type 0 where
  dialling refused sleeping stopping joining exited terminated : Main

-- Where the listener stands, named for the call that comes next.
pub data Listener : Type 0 where
  at_socket at_bind at_listen at_accept at_recv closing_client closing_server gone : Listener

-- The connection of the client: not made, waiting for `accept`, or accepted.
pub data Link : Type 0 where
  unmade waiting accepted : Link

-- Beside these: the connection has bytes that the listener has not received, and the client has
-- closed its end.
pub data Demo : Type 0 where
  demo : Main → Listener → Link → (has_bytes closed : Bool) → Demo

-- `listen` has succeeded, and the socket is not closed.
pub data IsListening : Listener → Type 0 where
  in_accept : IsListening at_accept
  in_recv : IsListening at_recv
  in_closing_client : IsListening closing_client
  in_closing_server : IsListening closing_server

-- The steps of `main` and of the worker. `start` succeeds with the connection.
pub data MainStep : Demo → Demo → Type 0 where
  connects :
      {l : Listener} {b c : Bool}
      → IsListening l
      → MainStep (demo dialling l unmade b c) (demo sleeping l waiting false false)
  finds_no_listener :
      {l : Listener} {k : Link} {b c : Bool}
      → ¬ IsListening l
      → MainStep (demo dialling l k b c) (demo refused l k b c)
  returns_one :
      {l : Listener} {k : Link} {b c : Bool}
      → MainStep (demo refused l k b c) (demo terminated l k b c)
  sends :
      {l : Listener} {k : Link} {b c : Bool}
      → MainStep (demo sleeping l k b c) (demo sleeping l k true c)
  stops :
      {l : Listener} {k : Link} {b c : Bool}
      → MainStep (demo sleeping l k b c) (demo stopping l k b c)
  sends_last :
      {l : Listener} {k : Link} {b c : Bool}
      → MainStep (demo stopping l k b c) (demo stopping l k true c)
  disconnects :
      {l : Listener} {k : Link} {b c : Bool}
      → MainStep (demo stopping l k b c) (demo joining l k b true)
  returns_zero :
      {k : Link} {b c : Bool} → MainStep (demo joining gone k b c) (demo exited gone k b c)

-- A call of the listener that succeeds. `recv` waits for bytes or for the end of the connection.
pub data ListenerStep : Demo → Demo → Type 0 where
  makes_socket :
      {m : Main} {k : Link} {b c : Bool}
      → ListenerStep (demo m at_socket k b c) (demo m at_bind k b c)
  binds :
      {m : Main} {k : Link} {b c : Bool}
      → ListenerStep (demo m at_bind k b c) (demo m at_listen k b c)
  listens :
      {m : Main} {k : Link} {b c : Bool}
      → ListenerStep (demo m at_listen k b c) (demo m at_accept k b c)
  accepts :
      {m : Main} {b c : Bool}
      → ListenerStep (demo m at_accept waiting b c) (demo m at_recv accepted b c)
  receives :
      {m : Main} {b c : Bool}
      → b || c ≡ true
      → ListenerStep (demo m at_recv accepted b c) (demo m closing_client accepted false c)
  closes_client :
      {m : Main} {k : Link} {b c : Bool}
      → ListenerStep (demo m closing_client k b c) (demo m closing_server k b c)
  closes_server :
      {m : Main} {k : Link} {b c : Bool}
      → ListenerStep (demo m closing_server k b c) (demo m gone k b c)

-- A call that fails. A `send` that does so changes nothing here.
pub data Failure : Demo → Demo → Type 0 where
  connect_fails :
      {l : Listener} {k : Link} {b c : Bool}
      → Failure (demo dialling l k b c) (demo refused l k b c)
  socket_fails :
      {m : Main} {k : Link} {b c : Bool} → Failure (demo m at_socket k b c) (demo m gone k b c)
  bind_fails :
      {m : Main} {k : Link} {b c : Bool}
      → Failure (demo m at_bind k b c) (demo m closing_server k b c)
  listen_fails :
      {m : Main} {k : Link} {b c : Bool}
      → Failure (demo m at_listen k b c) (demo m closing_server k b c)
  accept_fails :
      {m : Main} {k : Link} {b c : Bool}
      → Failure (demo m at_accept k b c) (demo m closing_server k b c)
  recv_fails :
      {m : Main} {k : Link} {b c : Bool}
      → Failure (demo m at_recv k b c) (demo m closing_client k b c)

pub data Step (d d' : Demo) : Type 0 where
  by_main : MainStep d d' → Step d d'
  by_listener : ListenerStep d d' → Step d d'
  by_failure : Failure d d' → Step d d'

-- Both threads at their beginnings.
abbrev pub new_demo : Demo
new_demo = demo dialling at_socket unmade false false

pub data Reaches (d : Demo) : Demo → Type 0 where
  here : Reaches d d
  then_step : {d' d'' : Demo} → Reaches d d' → Step d' d'' → Reaches d d''
