-- ===== src/ConnectivityRuntime/History.antt =====
-- src/connectivity/connectivity_runtime.cpp: the flag after any calls.
use connected_vehicle_platfo.Prelude.{
  ◌≡◌, refl, Bool, false, true, not, ◌&&◌, List, [], ◌∷◌, is_empty,
}
use connected_vehicle_platfo.ConnectivityRuntime.{
  ConnectivityConfig, ConnectivityRuntime, make, connect, disconnect, is_connected,
}

pub data Call : Type 0 where
  connects disconnects : Call

pub step : Call → ConnectivityRuntime → ConnectivityRuntime
step connects r = (connect r).1
step disconnects r = (disconnect r).1

pub run : List Call → ConnectivityRuntime → ConnectivityRuntime
run [] r = r
run (call ∷ rest) r = run rest (step call r)

-- Whether the last call was `connect`, or `before` if there was none.
abbrev pub last_connects : Bool → List Call → Bool
last_connects before [] = before
last_connects before (connects ∷ rest) = last_connects true rest
last_connects before (disconnects ∷ rest) = last_connects false rest

run_from :
    (calls : List Call) (before : Bool) (r : ConnectivityRuntime)
    → r.connected ≡ before && not (is_empty r.config.broker_host)
    → ((run calls r).connected ≡ last_connects before calls && not (is_empty r.config.broker_host))
      × ((run calls r).config ≡ r.config)
unfolding run step connect disconnect
run_from [] before r h = (h, refl)
run_from (connects ∷ rest) before r h = run_from rest true _ refl
run_from (disconnects ∷ rest) before r h = run_from rest false _ refl

-- After any calls on a new runtime it is connected exactly if the last one was connect and the
-- configured broker host is not empty, and the configuration is the given one.
pub connected-run :
    (calls : List Call) (config : ConnectivityConfig)
    → (is_connected (run calls (make config))
        ≡ last_connects false calls && not (is_empty config.broker_host))
      × ((run calls (make config)).config ≡ config)
unfolding make
connected-run calls config = run_from calls false (make config) refl
