-- ===== src/Demo/Threads/Join.antt =====
-- src/main.cpp: the wait of `main` for the listener.
use connected_vehicle_platfo.Prelude.{
  ℕ, suc, ◌+◌, ◌≤◌, ◌<◌, ◌≡◌, ◌⊎◌, inl, inr, refl, sym, subst, Bool, true, arith,
}
use connected_vehicle_platfo.Demo.Threads.{
  Main, dialling, refused, sleeping, stopping, joining, exited, terminated, Listener, at_socket,
  at_bind, at_listen, at_accept, at_recv, closing_client, closing_server, gone, Link, unmade,
  waiting, accepted, Demo, demo, in_accept, in_recv, in_closing_client, in_closing_server, MainStep,
  connects, finds_no_listener, returns_one, sends, sends_last, stops, disconnects, returns_zero,
  ListenerStep, makes_socket, binds, listens, accepts, receives, closes_client, closes_server,
  Failure, connect_fails, socket_fails, bind_fails, listen_fails, accept_fails, recv_fails, by_main,
  by_listener, by_failure, new_demo, Reaches, here, then_step,
}

-- There is no connection, and the listener does not receive on one.
pub data IsIdle : Listener → Link → Type 0 where
  idle_socket : IsIdle at_socket unmade
  idle_bind : IsIdle at_bind unmade
  idle_listen : IsIdle at_listen unmade
  idle_accept : IsIdle at_accept unmade
  idle_closing_client : IsIdle closing_client unmade
  idle_closing_server : IsIdle closing_server unmade
  idle_gone : IsIdle gone unmade

-- The listener is past `listen`, and where it accepts or receives, there is a connection to do so.
pub data IsServing : Listener → Link → Type 0 where
  to_accept : IsServing at_accept waiting
  to_receive : IsServing at_recv accepted
  to_close_client : {k : Link} → IsServing closing_client k
  to_close_server : {k : Link} → IsServing closing_server k
  over : {k : Link} → IsServing gone k

-- What holds of the listener and the connection, by where `main` stands.
pub data IsSound : Demo → Type 0 where
  while_dialling :
      {l : Listener} {k : Link} {b c : Bool} → IsIdle l k → IsSound (demo dialling l k b c)
  while_sleeping :
      {l : Listener} {k : Link} {b c : Bool} → IsServing l k → IsSound (demo sleeping l k b c)
  while_stopping :
      {l : Listener} {k : Link} {b c : Bool} → IsServing l k → IsSound (demo stopping l k b c)
  while_joining :
      {l : Listener} {k : Link} {b : Bool} → IsServing l k → IsSound (demo joining l k b true)
  after_exit : {l : Listener} {k : Link} {b c : Bool} → IsSound (demo exited l k b c)
  after_refusal : {l : Listener} {k : Link} {b c : Bool} → IsSound (demo refused l k b c)
  after_end : {l : Listener} {k : Link} {b c : Bool} → IsSound (demo terminated l k b c)

main-IsSound : {d d' : Demo} → MainStep d d' → IsSound d → IsSound d'
main-IsSound (connects in_accept) (while_dialling h) = while_sleeping to_accept
main-IsSound (connects in_recv) (while_dialling h) = elim h [ ]
main-IsSound (connects in_closing_client) (while_dialling h) = while_sleeping to_close_client
main-IsSound (connects in_closing_server) (while_dialling h) = while_sleeping to_close_server
main-IsSound (finds_no_listener e) h = after_refusal
main-IsSound returns_one h = after_end
main-IsSound sends (while_sleeping h) = while_sleeping h
main-IsSound stops (while_sleeping h) = while_stopping h
main-IsSound sends_last (while_stopping h) = while_stopping h
main-IsSound disconnects (while_stopping h) = while_joining h
main-IsSound returns_zero h = after_exit

-- A call of the listener, successful or not, that leads from `l` and `k` to `l'` and `k'`.
keep-IsSound :
    {m : Main} {l l' : Listener} {k k' : Link} {b b' c : Bool}
    → (IsIdle l k → IsIdle l' k')
    → (IsServing l k → IsServing l' k')
    → IsSound (demo m l k b c)
    → IsSound (demo m l' k' b' c)
keep-IsSound idle serving (while_dialling h) = while_dialling (idle h)
keep-IsSound idle serving (while_sleeping h) = while_sleeping (serving h)
keep-IsSound idle serving (while_stopping h) = while_stopping (serving h)
keep-IsSound idle serving (while_joining h) = while_joining (serving h)
keep-IsSound idle serving after_exit = after_exit
keep-IsSound idle serving after_refusal = after_refusal
keep-IsSound idle serving after_end = after_end

idle-unmade : {l : Listener} {k : Link} → IsIdle l k → k ≡ unmade
idle-unmade idle_socket = refl
idle-unmade idle_bind = refl
idle-unmade idle_listen = refl
idle-unmade idle_accept = refl
idle-unmade idle_closing_client = refl
idle-unmade idle_closing_server = refl
idle-unmade idle_gone = refl

IsIdle-at : {l l' : Listener} {k : Link} → IsIdle l' unmade → IsIdle l k → IsIdle l' k
IsIdle-at {l' = l'} there h = subst (IsIdle l') (sym (idle-unmade h)) there

-- `at_socket`, `at_bind` and `at_listen` serve no connection.
listener-IsSound : {d d' : Demo} → ListenerStep d d' → IsSound d → IsSound d'
listener-IsSound makes_socket = keep-IsSound (IsIdle-at idle_bind) (λ h. elim h [ ])
listener-IsSound binds = keep-IsSound (IsIdle-at idle_listen) (λ h. elim h [ ])
listener-IsSound listens = keep-IsSound (IsIdle-at idle_accept) (λ h. elim h [ ])
listener-IsSound accepts = keep-IsSound (λ h. elim h [ ]) (λ h. to_receive)
listener-IsSound (receives some) = keep-IsSound (λ h. elim h [ ]) (λ h. to_close_client)
listener-IsSound closes_client = keep-IsSound (IsIdle-at idle_closing_server) (λ h. to_close_server)
listener-IsSound closes_server = keep-IsSound (IsIdle-at idle_gone) (λ h. over)

Failure-IsSound : {d d' : Demo} → Failure d d' → IsSound d → IsSound d'
Failure-IsSound connect_fails h = after_refusal
Failure-IsSound socket_fails h = keep-IsSound (IsIdle-at idle_gone) (λ h. elim h [ ]) h
Failure-IsSound bind_fails h = keep-IsSound (IsIdle-at idle_closing_server) (λ h. elim h [ ]) h
Failure-IsSound listen_fails h = keep-IsSound (IsIdle-at idle_closing_server) (λ h. elim h [ ]) h
Failure-IsSound accept_fails h =
    keep-IsSound (IsIdle-at idle_closing_server) (λ h. to_close_server) h
Failure-IsSound recv_fails h = keep-IsSound (λ h. elim h [ ]) (λ h. to_close_client) h

pub reaches-IsSound : {d : Demo} → Reaches new_demo d → IsSound d
reaches-IsSound here = while_dialling idle_socket
reaches-IsSound (then_step run (by_main e)) = main-IsSound e (reaches-IsSound run)
reaches-IsSound (then_step run (by_listener e)) = listener-IsSound e (reaches-IsSound run)
reaches-IsSound (then_step run (by_failure e)) = Failure-IsSound e (reaches-IsSound run)

-- The calls that the listener still makes at most.
abbrev pub calls_left : Demo → ℕ
calls_left (demo m at_socket k b c) = 7
calls_left (demo m at_bind k b c) = 6
calls_left (demo m at_listen k b c) = 5
calls_left (demo m at_accept k b c) = 4
calls_left (demo m at_recv k b c) = 3
calls_left (demo m closing_client k b c) = 2
calls_left (demo m closing_server k b c) = 1
calls_left (demo m gone k b c) = 0

-- `main` waits in `join` while the listener makes `n` calls.
pub data Waits (d : Demo) : ℕ → Demo → Type 0 where
  at_once : Waits d 0 d
  a_call :
      {n : ℕ} {l : Listener} {k : Link} {b c : Bool} {d' : Demo}
      → Waits d n (demo joining l k b c)
      → ListenerStep (demo joining l k b c) d'
      → Waits d (suc n) d'
  a_failure :
      {n : ℕ} {l : Listener} {k : Link} {b c : Bool} {d' : Demo}
      → Waits d n (demo joining l k b c)
      → Failure (demo joining l k b c) d'
      → Waits d (suc n) d'

listener-calls_left : {d d' : Demo} → ListenerStep d d' → calls_left d' < calls_left d
listener-calls_left makes_socket = omega arith
listener-calls_left binds = omega arith
listener-calls_left listens = omega arith
listener-calls_left accepts = omega arith
listener-calls_left (receives some) = omega arith
listener-calls_left closes_client = omega arith
listener-calls_left closes_server = omega arith

Failure-calls_left :
    {l : Listener} {k : Link} {b c : Bool} {d' : Demo}
    → Failure (demo joining l k b c) d'
    → calls_left d' < calls_left (demo joining l k b c)
Failure-calls_left socket_fails = omega arith
Failure-calls_left bind_fails = omega arith
Failure-calls_left listen_fails = omega arith
Failure-calls_left accept_fails = omega arith
Failure-calls_left recv_fails = omega arith

Waits-calls_left : {d : Demo} {n : ℕ} {d' : Demo} → Waits d n d' → n + calls_left d' ≤ calls_left d
Waits-calls_left at_once = omega arith
Waits-calls_left (a_call w e) = omega (arith, Waits-calls_left w, listener-calls_left e)
Waits-calls_left (a_failure w e) = omega (arith, Waits-calls_left w, Failure-calls_left e)

Waits-IsSound : {d : Demo} {n : ℕ} {d' : Demo} → Waits d n d' → IsSound d → IsSound d'
Waits-IsSound at_once h = h
Waits-IsSound (a_call w e) h = listener-IsSound e (Waits-IsSound w h)
Waits-IsSound (a_failure w e) h = Failure-IsSound e (Waits-IsSound w h)

-- The next step: of `main` out of `join`, or of the listener.
abbrev pub GoesOn : Demo → Type 0
GoesOn d = ((d' : Demo) × MainStep d d') ⊎ ((d' : Demo) × ListenerStep d d')

sound-GoesOn :
    {l : Listener} {k : Link} {b c : Bool}
    → IsSound (demo joining l k b c)
    → GoesOn (demo joining l k b c)
sound-GoesOn (while_joining to_accept) = inr (_, accepts)
sound-GoesOn {b = b} (while_joining to_receive) = inr (_, receives (ground arith))
sound-GoesOn (while_joining to_close_client) = inr (_, closes_client)
sound-GoesOn (while_joining to_close_server) = inr (_, closes_server)
sound-GoesOn (while_joining over) = inl (_, returns_zero)

serving_at_most :
    {l : Listener} {k : Link} {b c : Bool}
    → IsSound (demo joining l k b c)
    → calls_left (demo joining l k b c) ≤ 4
serving_at_most (while_joining to_accept) = omega arith
serving_at_most (while_joining to_receive) = omega arith
serving_at_most (while_joining to_close_client) = omega arith
serving_at_most (while_joining to_close_server) = omega arith
serving_at_most (while_joining over) = omega arith

-- Once main waits in join for the listener, which it does after start has succeeded and stop has
-- returned, the listener makes at most 4 more calls, whichever of its calls have failed or fail;
-- and after any number of them either main can return 0 or the listener's next call can return with
-- success: accept has a connection, and recv has bytes or the end of the connection, since stop has
-- closed the client's socket before.
pub join_ends :
    {l l' : Listener} {k k' : Link} {b b' c c' : Bool} {n : ℕ}
    → Reaches new_demo (demo joining l k b c)
    → Waits (demo joining l k b c) n (demo joining l' k' b' c')
    → (n ≤ 4) × GoesOn (demo joining l' k' b' c')
join_ends run w =
    let sound = reaches-IsSound run in
    let few = serving_at_most sound in
    let left = Waits-calls_left w in (omega arith, sound-GoesOn (Waits-IsSound w sound))
