-- ===== src/ConnectivityService/Shutdown.antt =====
-- src/ConnectivityService/connectivity_service.cpp: histories of calls by one thread, with the
-- worker's iterations between and during them. `stop` joins a thread only where there is one.
use connected_vehicle_platfo.Prelude.{
  ◌≡◌, refl, sym, ◌∙◌, ap, ◌⊎◌, inl, inr, Bool, false, true, Option, none, some, List, [], ◌∷◌,
  codes, Bool-cases, arith, if◌then◌else◌,
}
use connected_vehicle_platfo.AuthClient.{AuthClient}
use connected_vehicle_platfo.MqttClient.Interface.{IMqttClient}
use connected_vehicle_platfo.TelemetryManager.{TelemetryManager}
use connected_vehicle_platfo.ConnectivityService.{
  disconnected, stopped, ConnectivityService, make, Parts, Here, info, start, start_with, go_round,
  stop, join_worker, publish_with, publish_telemetry, round, finish, run_loop,
}
use connected_vehicle_platfo.ConnectivityService.Startup.{start-Outcome}
use connected_vehicle_platfo.ConnectivityService.Early.{start_with-Agree}
use connected_vehicle_platfo.ConnectivityService.Kept.{
  Keeps, Keeps-trans, Drifts, round-Keeps, go_round-Keeps, run_loop-Keeps,
}

-- What holds of a service while no call is under way: there is a worker to join exactly while the
-- service runs, and one that does not run is stopped or disconnected.
pub record IsSound {W : Type 0} (s : ConnectivityService W) : Type 0 where
  pub joined : s.worker ≡ s.running
  pub at_rest : (s.running ≡ true) ⊎ (s.state ≡ stopped) ⊎ (s.state ≡ disconnected)

module _ {W D : Type 0} (parts : Parts W D) where
  -- The last thing that a worker does to the client is to disconnect it.
  abbrev pub DisconnectedLast : Option (IMqttClient W) → Here parts → Type 0
  DisconnectedLast none here = Unit {0}
  DisconnectedLast (some client) (s, w) =
      (v : W) × (w
        ≡ (info parts 123 (codes "Connectivity service loop stopped")
            (s, (client.disconnect v).1)).1)

  abbrev pub EndsDisconnected : Here parts → Type 0
  EndsDisconnected here = DisconnectedLast parts.mqtt_client here

  finish-DisconnectedLast :
      (client : Option (IMqttClient W)) (here : Here parts)
      → DisconnectedLast client (finish parts client here)
  unfolding finish
  finish-DisconnectedLast none here = tt
  finish-DisconnectedLast (some client) here = (here.1, refl)

  run_loop-EndsDisconnected :
      (drifts : List (Here parts → Here parts)) (here : Here parts)
      → EndsDisconnected (run_loop parts drifts here)
  unfolding run_loop
  run_loop-EndsDisconnected [] here = finish-DisconnectedLast parts.mqtt_client here
  run_loop-EndsDisconnected (drift ∷ rest) here =
      run_loop-EndsDisconnected rest (round parts (drift here))

  -- The fields of the service do not matter to it.
  stopped-DisconnectedLast :
      (client : Option (IMqttClient W)) (here : Here parts)
      → DisconnectedLast client here
      → DisconnectedLast client (record here.0 { state = stopped; worker = false }, here.1)
  stopped-DisconnectedLast none here h = tt
  stopped-DisconnectedLast (some client) here h = h

  -- On a service that runs and has a worker, where what other threads do leaves running_ and
  -- worker_ alone, stop returns true after whatever iterations the worker still does, with the
  -- service stopped, not running, its worker gone, and the client disconnected as the last thing
  -- done to it.
  pub stop_outcome :
      (remaining : List (Here parts → Here parts)) (here : Here parts)
      → Drifts parts remaining
      → here.0.running ≡ true
      → here.0.worker ≡ true
      → (after : Here parts) × (stop parts remaining here ≡ some (true, after))
        × (after.0.state ≡ stopped)
        × (after.0.running ≡ false)
        × (after.0.worker ≡ false)
        × EndsDisconnected after
  unfolding stop join_worker
  stop_outcome remaining (s, w) calm runs has_worker =
      let entered : Here parts =
        info parts 61 (codes "Stopping connectivity service") (record s { running = false }, w) in
      let (s', w') = run_loop parts remaining entered in
      (
        (record s' { state = stopped; worker = false }, w'),
        rw (runs, has_worker),
        refl,
        (run_loop-Keeps parts remaining entered calm).running,
        refl,
        stopped-DisconnectedLast parts.mqtt_client (s', w')
            (run_loop-EndsDisconnected remaining entered),
      )

  -- One call of the owner, or an iteration of the worker between two calls. `starts` and `stops` come
  -- with the iterations of the worker in the call: before Publishing is stored, and before the join.
  pub data Call : Type 0 where
    publishes : Call
    starts stops : List (Here parts → Here parts) → Call
    iterates : (Here parts → Here parts) → Call

  after_stop : Option (Bool × Here parts) → Option (Here parts)
  after_stop none = none
  after_stop (some (ok, here)) = some here

  -- `none` is an exception that leaves the call. Without a worker there are no iterations.
  pub step : Call → Here parts → Option (Here parts)
  step (starts early) here = some (start_with parts (go_round parts early) here).1
  step publishes here = some (publish_telemetry parts here).1
  step (stops remaining) here = after_stop (stop parts remaining here)
  step (iterates drift) here = if here.0.worker then some (round parts (drift here)) else some here

  go_on : List Call → Option (Here parts) → (Here parts → Option (Here parts)) → Option (Here parts)
  go_on calls none f = none
  go_on calls (some here) f = f here

  pub run : List Call → Here parts → Option (Here parts)
  run [] here = some here
  run (call ∷ rest) here = go_on rest (step call here) (run rest)

  -- What other threads do in a history leaves `running_` and `worker_` alone.
  abbrev pub Allowed : List Call → Type 0
  Allowed [] = Unit {0}
  Allowed (starts early ∷ rest) = Drifts parts early × Allowed rest
  Allowed (publishes ∷ rest) = Allowed rest
  Allowed (stops remaining ∷ rest) = Drifts parts remaining × Allowed rest
  Allowed (iterates drift ∷ rest) =
      ((here : Here parts) → Keeps parts here (drift here)) × Allowed rest

  abbrev SoundAfter : Option (Here parts) → Type 0
  SoundAfter r = (after : Here parts) × (r ≡ some after) × IsSound after.0

  start-IsSound : (here : Here parts) → IsSound here.0 → IsSound (start parts here).1.0
  start-IsSound (s, w) h = elim (start-Outcome parts s w) [
    | inr (runs, same) ↦ rw same h
    | inl (idle, inl (_, up)) ↦ record {
      joined = up.worker ∙ sym up.running;
      at_rest = inl up.running;
    }
    | inl (idle, inr (_, down)) ↦ record {
      joined = down.worker ∙ (h.joined ∙ idle) ∙ sym down.running;
      at_rest = inr (inr down.state);
    }
  ]

  start_with-IsSound :
      (early : List (Here parts → Here parts)) (here : Here parts)
      → Drifts parts early
      → IsSound here.0
      → IsSound (start_with parts (go_round parts early) here).1.0
  start_with-IsSound early here calm h =
      let (_, state, running, worker) =
        start_with-Agree parts (go_round parts early) (λ now. go_round-Keeps parts early now calm)
          here in
      let sound = start-IsSound here h in
      record {
        joined = worker ∙ sound.joined ∙ sym running;
        at_rest = elim sound.at_rest [
          | inl runs ↦ inl (running ∙ runs)
          | inr (inl at_stop) ↦ inr (inl (state ∙ at_stop))
          | inr (inr cut_off) ↦ inr (inr (state ∙ cut_off))
        ];
      }

  publish_with-same :
      (manager : Option TelemetryManager) (s : ConnectivityService W) (w : W)
      → let (s', w') = (publish_with parts manager (s, w)).1 in
        (s'.worker ≡ s.worker) × (s'.running ≡ s.running) × (s'.state ≡ s.state)
  unfolding publish_with
  publish_with-same none s w = (refl, refl, refl)
  publish_with-same (some manager) s w = (refl, refl, refl)

  publish-IsSound :
      (here : Here parts) → IsSound here.0 → IsSound (publish_telemetry parts here).1.0
  unfolding publish_telemetry
  publish-IsSound (s, w) h =
      let same = publish_with-same s.telemetry_manager s w in
      record {
        joined = same.0 ∙ h.joined ∙ sym same.1;
        at_rest = elim h.at_rest [
          | inl runs ↦ inl (same.1 ∙ runs)
          | inr (inl at_stop) ↦ inr (inl (same.2 ∙ at_stop))
          | inr (inr cut_off) ↦ inr (inr (same.2 ∙ cut_off))
        ];
      }

  stop_idle :
      (remaining : List (Here parts → Here parts)) (here : Here parts)
      → here.0.running ≡ false
      → stop parts remaining here ≡ some (true, here)
  unfolding stop
  stop_idle remaining (s, w) idle = ground arith

  stop-IsSound :
      (remaining : List (Here parts → Here parts)) (here : Here parts)
      → Drifts parts remaining
      → IsSound here.0
      → SoundAfter (after_stop (stop parts remaining here))
  unfolding after_stop
  stop-IsSound remaining (s, w) calm h = elim (Bool-cases s.running) [
    | inr idle ↦ ((s, w), ap after_stop (stop_idle remaining (s, w) idle), h)
    | inl runs ↦
        let (after, returned, state, running, worker, _) =
          stop_outcome remaining (s, w) calm runs (h.joined ∙ runs) in
        (
          after,
          ap after_stop returned,
          record { joined = worker ∙ sym running; at_rest = inr (inl state) },
        )
  ]

  round-IsSound :
      (drift : Here parts → Here parts) (here : Here parts)
      → ((any : Here parts) → Keeps parts any (drift any))
      → IsSound here.0
      → here.0.worker ≡ true
      → IsSound (round parts (drift here)).0
  round-IsSound drift here calm h has_worker =
      let kept = Keeps-trans parts (calm here) (round-Keeps parts (drift here)) in
      let runs : here.0.running ≡ true = sym h.joined ∙ has_worker in
      record {
        joined = kept.worker ∙ h.joined ∙ sym kept.running;
        at_rest = inl (kept.running ∙ runs);
      }

  Allowed-split :
      (call : Call) (rest : List Call) → Allowed (call ∷ rest) → Allowed (call ∷ []) × Allowed rest
  Allowed-split (starts early) rest ok = ((ok.0, tt), ok.1)
  Allowed-split publishes rest ok = (tt, ok)
  Allowed-split (stops remaining) rest ok = ((ok.0, tt), ok.1)
  Allowed-split (iterates drift) rest ok = ((ok.0, tt), ok.1)

  step-IsSound :
      (call : Call) (here : Here parts)
      → Allowed (call ∷ [])
      → IsSound here.0
      → SoundAfter (step call here)
  unfolding step
  step-IsSound (starts early) here ok h = (_, refl, start_with-IsSound early here ok.0 h)
  step-IsSound publishes here ok h = (_, refl, publish-IsSound here h)
  step-IsSound (stops remaining) here ok h = stop-IsSound remaining here ok.0 h
  step-IsSound (iterates drift) here ok h = elim (Bool-cases here.0.worker) [
    | inl has_worker ↦
        (round parts (drift here), ground arith, round-IsSound drift here ok.0 h has_worker)
    | inr none_left ↦ (here, ground arith, h)
  ]

  run-IsSound_from :
      (calls : List Call) (here : Here parts)
      → Allowed calls
      → IsSound here.0
      → SoundAfter (run calls here)
  unfolding run go_on
  run-IsSound_from [] here ok h = (here, refl, h)
  run-IsSound_from (call ∷ rest) here ok h =
      let (now, later) = Allowed-split call rest ok in
      let (next, stepped, sound) = step-IsSound call here now h in
      rw stepped (run-IsSound_from rest next later sound)

  -- On a new service, any history of calls of start, stop and publishTelemetry by one owner, with
  -- any iterations of the worker between two of the calls, in start before it has stored
  -- Publishing, and in stop before it has joined the worker, where what other threads do leaves
  -- running_ and worker_ alone, ends without an exception of join; at its end there is a worker
  -- exactly if the service runs, and a service that does not run is stopped or disconnected.
  pub run-IsSound :
      (auth_client : Option (AuthClient W)) (telemetry_manager : Option TelemetryManager) (w : W)
      (calls : List Call)
      → Allowed calls
      → (after : Here parts) × (run calls (make auth_client telemetry_manager, w) ≡ some after)
        × IsSound after.0
  unfolding make
  run-IsSound auth_client telemetry_manager w calls ok =
      run-IsSound_from calls (make auth_client telemetry_manager, w) ok
        (record { joined = refl; at_rest = inr (inl refl) })
