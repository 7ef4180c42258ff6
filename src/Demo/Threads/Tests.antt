-- ===== src/Demo/Threads/Tests.antt =====
-- src/main.cpp: a run of both threads at which the listener receives nothing before the client closes.
use connected_vehicle_platfo.Prelude.{◌≤◌, ◌≡◌, ◌⊎◌, refl, true, false}
use connected_vehicle_platfo.Demo.Threads.{
  dialling, sleeping, joining, terminated, at_bind, at_accept, closing_client, unmade, waiting,
  accepted, demo, in_accept, connects, stops, disconnects, makes_socket, binds, listens, accepts,
  receives, by_main, by_listener, new_demo, Reaches, here, then_step,
}
use connected_vehicle_platfo.Demo.Threads.Join.{Waits, at_once, a_call, GoesOn, join_ends}
use connected_vehicle_platfo.Demo.Threads.Early.{
  Flawless, at_first, main_goes_on, listener_goes_on, IsEarly, IsUp, connect_races_listen,
}

open_port : Reaches new_demo (demo dialling at_accept unmade false false)
open_port =
    then_step (then_step (then_step here (by_listener makes_socket)) (by_listener binds))
      (by_listener listens)

-- The service has stopped before the listener's `accept` has returned.
now_joining : Reaches new_demo (demo joining at_accept waiting false true)
now_joining =
    then_step (then_step (then_step open_port (by_main (connects in_accept))) (by_main stops))
      (by_main disconnects)

has_received :
    Waits
      (demo joining at_accept waiting false true)
      2
      (demo joining closing_client accepted false true)
has_received = a_call (a_call at_once accepts) (receives refl)

join_ends_example : (2 ≤ 4) × GoesOn (demo joining closing_client accepted false true)
join_ends_example = join_ends now_joining has_received

connect_races_listen_example :
    (IsEarly at_bind
      × Flawless
          (demo dialling at_bind unmade false false)
          (demo terminated at_bind unmade false false))
    ⊎ ((at_bind ≡ at_accept) × IsUp sleeping)
connect_races_listen_example =
    connect_races_listen (listener_goes_on at_first makes_socket) (
      main_goes_on (listener_goes_on (listener_goes_on at_first binds) listens)
        (connects in_accept))
