-- ===== src/SomeipClient/Tests.antt =====
-- src/SomeipClient/someip_client.cpp at concrete inputs, those of tests/someip_tests.cpp.
use connected_vehicle_platfo.Prelude.{
  ◌+◌, ◌%◌, ◌^◌, ◌≡◌, refl, not, true, List, [], ◌∷◌, ℤ, pos, is_negative, codes, length, take,
  drop, arith,
}
use connected_vehicle_platfo.Sockets.{own}
use connected_vehicle_platfo.Sockets.Fake.{fake_os, fake_descriptors, nothing_open}
use connected_vehicle_platfo.SomeipClient.Frame.{little, frame_of, value, frame_fields}
use connected_vehicle_platfo.SomeipClient.{
  SomeipConfig, make, disconnect, is_connected, default_config, connect, publish_payload,
}
use connected_vehicle_platfo.SomeipClient.Lifecycle.{Call, connects, publishes, run, owns_socket}

abbrev config : SomeipConfig
config = record default_config { port = 41001 }

publish_test :
    (publish_payload fake_os little
      (codes "vehicle-payload")
      (connect fake_os little (make config, nothing_open)).1).0
    ≡ true
unfolding publish_payload connect make frame_of
publish_test = refl

frame_test :
    frame_of little 0x1234 0x0001 (codes "hi")
    ≡ 0x34 ∷ 0x12 ∷ 0x01 ∷ 0x00 ∷ 0x02 ∷ 0 ∷ 0 ∷ 0 ∷ codes "hi"
unfolding frame_of
frame_test = refl

frame_fields_example :
    let frame = frame_of little 0x1234 0x0001 (codes "vehicle-payload") in
    (value little (take 2 frame) ≡ 0x1234)
    × (value little (take 2 (drop 2 frame)) ≡ 0x0001)
    × (value little (take 4 (drop 4 frame)) ≡ length (codes "vehicle-payload") % 2 ^ 32)
    × (drop 8 frame ≡ codes "vehicle-payload")
frame_fields_example =
    frame_fields little 0x1234 0x0001 (codes "vehicle-payload") (omega arith) (omega arith)

abbrev calls : List Call
calls = connects ∷ publishes [] (codes "vehicle-payload") (pos 1) ∷ []

owns_socket_example :
    let s = run fake_os little calls (make config, nothing_open) in
    (s.0.connected ≡ not (is_negative s.0.socket_fd))
    × (is_connected fake_os little s ≡ s.0.connected)
    × ((d : ℤ) → s.1 d ≡ 0 + own s.0.socket_fd d)
    × ((d : ℤ) → (disconnect fake_os little s).1.1 d ≡ 0)
owns_socket_example = owns_socket fake_os little fake_descriptors calls config nothing_open
