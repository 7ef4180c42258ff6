-- ===== src/Demo/Threads/Early.antt =====
-- src/main.cpp: `start` runs beside the listener, and does not wait until the port is open.
use connected_vehicle_platfo.Prelude.{◌≡◌, ◌⊎◌, inl, inr, refl, Bool}
use connected_vehicle_platfo.Demo.Threads.{
  Main, dialling, refused, sleeping, stopping, joining, exited, terminated, Listener, at_socket,
  at_bind, at_listen, at_accept, at_recv, closing_client, closing_server, Link, waiting, unmade,
  Demo, demo, IsListening, in_accept, MainStep, connects, finds_no_listener, returns_one, sends,
  stops, sends_last, disconnects, returns_zero, ListenerStep, makes_socket, binds, listens, accepts,
  receives, closes_client, closes_server, new_demo,
}

-- What can come in which no call fails.
pub data Flawless (d : Demo) : Demo → Type 0 where
  at_first : Flawless d d
  main_goes_on : {d' d'' : Demo} → Flawless d d' → MainStep d' d'' → Flawless d d''
  listener_goes_on : {d' d'' : Demo} → Flawless d d' → ListenerStep d' d'' → Flawless d d''

-- `listen` has not been called.
pub data IsEarly : Listener → Type 0 where
  before_socket : IsEarly at_socket
  before_bind : IsEarly at_bind
  before_listen : IsEarly at_listen

-- `start` has succeeded.
pub data IsConnected : Main → Type 0 where
  up_sleeping : IsConnected sleeping
  up_stopping : IsConnected stopping
  up_joining : IsConnected joining
  up_exited : IsConnected exited

early-not_IsListening : {l : Listener} → IsEarly l → ¬ IsListening l
early-not_IsListening before_socket h = elim h [ ]
early-not_IsListening before_bind h = elim h [ ]
early-not_IsListening before_listen h = elim h [ ]

-- Before the connection, without failures, the listener is at `accept` at most.
data IsPunctual : Listener → Link → Type 0 where
  still_early : {l : Listener} → IsEarly l → IsPunctual l unmade
  in_time : IsPunctual at_accept unmade

data IsFlawless : Demo → Type 0 where
  dialling_now :
      {l : Listener} {k : Link} {b c : Bool} → IsPunctual l k → IsFlawless (demo dialling l k b c)
  refused_now : {l : Listener} {k : Link} {b c : Bool} → IsFlawless (demo refused l k b c)
  terminated_now : {l : Listener} {k : Link} {b c : Bool} → IsFlawless (demo terminated l k b c)
  connected_now :
      {m : Main} {l : Listener} {k : Link} {b c : Bool}
      → IsConnected m
      → IsFlawless (demo m l k b c)

main-IsFlawless : {d d' : Demo} → MainStep d d' → IsFlawless d'
main-IsFlawless (connects e) = connected_now up_sleeping
main-IsFlawless (finds_no_listener e) = refused_now
main-IsFlawless returns_one = terminated_now
main-IsFlawless sends = connected_now up_sleeping
main-IsFlawless stops = connected_now up_stopping
main-IsFlawless sends_last = connected_now up_stopping
main-IsFlawless disconnects = connected_now up_joining
main-IsFlawless returns_zero = connected_now up_exited

keep-IsFlawless :
    {m : Main} {l l' : Listener} {k k' : Link} {b b' c : Bool}
    → (IsPunctual l k → IsPunctual l' k')
    → IsFlawless (demo m l k b c)
    → IsFlawless (demo m l' k' b' c)
keep-IsFlawless next (dialling_now h) = dialling_now (next h)
keep-IsFlawless next refused_now = refused_now
keep-IsFlawless next terminated_now = terminated_now
keep-IsFlawless next (connected_now u) = connected_now u

socket-IsPunctual : {k : Link} → IsPunctual at_socket k → IsPunctual at_bind k
socket-IsPunctual (still_early h) = still_early before_bind

bind-IsPunctual : {k : Link} → IsPunctual at_bind k → IsPunctual at_listen k
bind-IsPunctual (still_early h) = still_early before_listen

listen-IsPunctual : {k : Link} → IsPunctual at_listen k → IsPunctual at_accept k
listen-IsPunctual (still_early h) = in_time

accept-IsPunctual : {b : Link} → IsPunctual at_accept waiting → IsPunctual at_recv b
accept-IsPunctual h = elim h [ ]

closing_client-not_IsPunctual : {k : Link} → ¬ IsPunctual closing_client k
closing_client-not_IsPunctual (still_early h) = elim h [ ]

closing_server-not_IsPunctual : {k : Link} → ¬ IsPunctual closing_server k
closing_server-not_IsPunctual (still_early h) = elim h [ ]

listener-IsFlawless : {d d' : Demo} → ListenerStep d d' → IsFlawless d → IsFlawless d'
listener-IsFlawless makes_socket = keep-IsFlawless socket-IsPunctual
listener-IsFlawless binds = keep-IsFlawless bind-IsPunctual
listener-IsFlawless listens = keep-IsFlawless listen-IsPunctual
listener-IsFlawless accepts = keep-IsFlawless accept-IsPunctual
listener-IsFlawless (receives some) = keep-IsFlawless (λ h. elim h [ ])
listener-IsFlawless closes_client = keep-IsFlawless (λ h. absurd (closing_client-not_IsPunctual h))
listener-IsFlawless closes_server = keep-IsFlawless (λ h. absurd (closing_server-not_IsPunctual h))

new-IsFlawless : {d : Demo} → Flawless new_demo d → IsFlawless d
new-IsFlawless at_first = dialling_now (still_early before_socket)
new-IsFlawless (main_goes_on run e) = main-IsFlawless e
new-IsFlawless (listener_goes_on run e) = listener-IsFlawless e (new-IsFlawless run)

-- `start` has not failed: it is before the connection, or it has succeeded.
pub data IsUp : Main → Type 0 where
  before_connect : IsUp dialling
  after_connect : {m : Main} → IsConnected m → IsUp m

-- The listener was at `accept` before the connection.
data IsInTime : Demo → Type 0 where
  not_yet : {b c : Bool} → IsInTime (demo dialling at_accept unmade b c)
  connected :
      {m : Main} {l : Listener} {k : Link} {b c : Bool} → IsConnected m → IsInTime (demo m l k b c)

main-IsInTime : {d d' : Demo} → MainStep d d' → IsInTime d → IsInTime d'
main-IsInTime (connects e) h = connected up_sleeping
main-IsInTime (finds_no_listener e) not_yet = absurd (e in_accept)
main-IsInTime (finds_no_listener e) (connected u) = elim u [ ]
main-IsInTime returns_one (connected u) = elim u [ ]
main-IsInTime sends h = connected up_sleeping
main-IsInTime stops h = connected up_stopping
main-IsInTime sends_last h = connected up_stopping
main-IsInTime disconnects h = connected up_joining
main-IsInTime returns_zero h = connected up_exited

listener-IsInTime : {d d' : Demo} → ListenerStep d d' → IsInTime d → IsInTime d'
listener-IsInTime makes_socket (connected u) = connected u
listener-IsInTime binds (connected u) = connected u
listener-IsInTime listens (connected u) = connected u
listener-IsInTime accepts (connected u) = connected u
listener-IsInTime (receives some) (connected u) = connected u
listener-IsInTime closes_client (connected u) = connected u
listener-IsInTime closes_server (connected u) = connected u

Flawless-IsInTime : {d d' : Demo} → Flawless d d' → IsInTime d → IsInTime d'
Flawless-IsInTime at_first h = h
Flawless-IsInTime (main_goes_on run e) h = main-IsInTime e (Flawless-IsInTime run h)
Flawless-IsInTime (listener_goes_on run e) h = listener-IsInTime e (Flawless-IsInTime run h)

in_time-IsUp :
    {m : Main} {l : Listener} {k : Link} {b c : Bool} → IsInTime (demo m l k b c) → IsUp m
in_time-IsUp not_yet = before_connect
in_time-IsUp (connected u) = after_connect u

early-terminates :
    {l : Listener} {k : Link} {b c : Bool}
    → IsEarly l
    → Flawless (demo dialling l k b c) (demo terminated l k b c)
early-terminates h =
    main_goes_on (main_goes_on at_first (finds_no_listener (early-not_IsListening h))) returns_one

dialling-decides :
    {l l' : Listener} {k k' : Link} {b b' c c' : Bool} {m : Main}
    → IsFlawless (demo dialling l k b c)
    → Flawless (demo dialling l k b c) (demo m l' k' b' c')
    → (IsEarly l × Flawless (demo dialling l k b c) (demo terminated l k b c))
      ⊎ ((l ≡ at_accept) × IsUp m)
dialling-decides (dialling_now (still_early h)) run = inl (h, early-terminates h)
dialling-decides (dialling_now in_time) run =
    inr (refl, in_time-IsUp (Flawless-IsInTime run not_yet))
dialling-decides (connected_now u) run = elim u [ ]

-- In any run of main beside the listener in which no call fails by itself: if the listener has not
-- called listen where start is before its connection, main can go on to its end by std::terminate;
-- otherwise the listener is at accept, and from there start does not fail.
pub connect_races_listen :
    {l l' : Listener} {k k' : Link} {b b' c c' : Bool} {m : Main}
    → Flawless new_demo (demo dialling l k b c)
    → Flawless (demo dialling l k b c) (demo m l' k' b' c')
    → (IsEarly l × Flawless (demo dialling l k b c) (demo terminated l k b c))
      ⊎ ((l ≡ at_accept) × IsUp m)
connect_races_listen before after = dialling-decides (new-IsFlawless before) after
