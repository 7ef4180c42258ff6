-- ===== src/ConnectivityService/Backlog.antt =====
-- src/ConnectivityService/connectivity_service.cpp: the loop adds to the telemetry manager's queue
-- and never takes from it; `flushQueue` is called by no part of the service.
use connected_vehicle_platfo.Prelude.{
  ℕ, suc, ◌+◌, ◌≤◌, ◌≡◌, refl, sym, ◌∙◌, ap, subst, Option, none, some, List, [], ◌∷◌, ◌++◌,
  append-nil, append_assoc, Text, length, length-append, arith,
}
use connected_vehicle_platfo.MqttClient.Interface.{IMqttClient}
use connected_vehicle_platfo.TelemetryManager.{TelemetryManager}
use connected_vehicle_platfo.TelemetryManager.Queue.{publish_sample_growth}
use connected_vehicle_platfo.ConnectivityService.{
  ConnectivityService, Parts, Here, publish_with, publish_telemetry, publish_step, round, finish,
  run_loop,
}
use connected_vehicle_platfo.ConnectivityService.Rounds.{
  Iteration, published, skipped, round_guarded, publish_step-quiet,
}

module _ {W D : Type 0} (parts : Parts W D) where
  -- Both services have a manager, and the later queue is the earlier one with at most `n` messages
  -- more at its end.
  pub record Grows (n : ℕ) (before after : ConnectivityService W) : Type 0 where
    pub first : TelemetryManager
    pub last : TelemetryManager
    pub had : before.telemetry_manager ≡ some first
    pub has : after.telemetry_manager ≡ some last
    pub more : List Text
    pub queue : last.pending_messages ≡ first.pending_messages ++ more
    pub few : length more ≤ n

  Grows-refl :
      (n : ℕ) (s : ConnectivityService W) (m : TelemetryManager)
      → s.telemetry_manager ≡ some m
      → Grows n s s
  Grows-refl n s m e = record {
    first = m;
    last = m;
    had = e;
    has = e;
    more = [];
    queue = sym (append-nil m.pending_messages);
    few = omega arith;
  }

  same_manager :
      (a b : TelemetryManager)
      → Path (Option TelemetryManager) (some a) (some b)
      → a.pending_messages ≡ b.pending_messages
  same_manager a b e = ground arith

  Grows-trans :
      (k n : ℕ) {a b c : ConnectivityService W} → Grows k a b → Grows n b c → Grows (k + n) a c
  Grows-trans k n f g = record {
    first = f.first;
    last = g.last;
    had = f.had;
    has = g.has;
    more = f.more ++ g.more;
    queue =
        g.queue
        ∙ ap (λ (q : List Text). q ++ g.more)
            (same_manager g.first f.last (sym g.had ∙ f.has) ∙ f.queue)
        ∙ append_assoc f.first.pending_messages f.more g.more;
    few = omega (arith, length-append f.more g.more, f.few, g.few);
  }

  -- A step that leaves the manager as it was.
  Grows-same :
      (n : ℕ) {a b c : ConnectivityService W}
      → Grows n a b
      → c.telemetry_manager ≡ b.telemetry_manager
      → Grows n a c
  Grows-same n g e = record {
    first = g.first;
    last = g.last;
    had = g.had;
    has = e ∙ g.has;
    more = g.more;
    queue = g.queue;
    few = g.few;
  }

  Grows-weaken : (k n : ℕ) {a b : ConnectivityService W} → k ≤ n → Grows k a b → Grows n a b
  Grows-weaken k n le g = record {
    first = g.first;
    last = g.last;
    had = g.had;
    has = g.has;
    more = g.more;
    queue = g.queue;
    few = omega (arith, g.few);
  }

  publish_with-Grows :
      (s : ConnectivityService W) (w : W) (m : TelemetryManager)
      → s.telemetry_manager ≡ some m
      → Grows 1 s (publish_with parts (some m) (s, w)).1.0
  unfolding publish_with
  publish_with-Grows s w m e =
      let (more, queue, few) =
        publish_sample_growth parts.platform parts.doubles parts.manager_client m w in
      record { first = m; last = _; had = e; has = refl; more = more; queue = queue; few = few }

  publish-Grows :
      (here : Here parts) (m : TelemetryManager)
      → here.0.telemetry_manager ≡ some m
      → Grows 1 here.0 (publish_step parts here).0
  unfolding publish_telemetry
  publish-Grows (s, w) m e =
      let grown : Grows 1 s (publish_telemetry parts (s, w)).1.0 =
        subst (λ (o : Option TelemetryManager). Grows 1 s (publish_with parts o (s, w)).1.0) (sym e)
          (publish_with-Grows s w m e) in
      subst (λ (h : Here parts). Grows 1 s h.0) (sym (publish_step-quiet parts (s, w) m e)) grown

  Iteration-Grows :
      (here : Here parts) (m : TelemetryManager) {after : Here parts}
      → here.0.telemetry_manager ≡ some m
      → Iteration parts here after
      → Grows 1 here.0 after.0
  Iteration-Grows here m e (published ready r) =
      Grows-trans 0 1 (Grows-same 0 (Grows-refl 0 here.0 m e) r.telemetry)
        (publish-Grows ready m (r.telemetry ∙ e))
  Iteration-Grows here m e (skipped after s) = Grows-same 1 (Grows-refl 1 here.0 m e) s.telemetry

  -- What other threads do between two iterations leaves the telemetry manager alone.
  abbrev pub LeavesManager : List (Here parts → Here parts) → Type 0
  LeavesManager [] = Unit {0}
  LeavesManager (drift ∷ rest) =
      ((here : Here parts) → (drift here).0.telemetry_manager ≡ here.0.telemetry_manager)
      × LeavesManager rest

  finish-same :
      (client : Option (IMqttClient W)) (here : Here parts)
      → (finish parts client here).0.telemetry_manager ≡ here.0.telemetry_manager
  unfolding finish
  finish-same none here = refl
  finish-same (some client) here = refl

  -- However often the loop goes round, and however well the connection works, where what other
  -- threads do leaves the telemetry manager alone, a message that waits in the queue when the loop
  -- starts still waits there, in the same place, when the loop has ended; each iteration adds at
  -- most one message behind.
  pub backlog_remains :
      (drifts : List (Here parts → Here parts)) (here : Here parts) (m : TelemetryManager)
      → LeavesManager drifts
      → here.0.telemetry_manager ≡ some m
      → Grows (length drifts) here.0 (run_loop parts drifts here).0
  unfolding run_loop
  backlog_remains [] here m calm e =
      Grows-same 0 (Grows-refl 0 here.0 m e) (finish-same parts.mqtt_client here)
  backlog_remains (drift ∷ rest) here m calm e =
      let drifted = Grows-same 0 (Grows-refl 0 here.0 m e) (calm.0 here) in
      let turned =
        Iteration-Grows (drift here) m (calm.0 here ∙ e) (round_guarded parts (drift here)) in
      let after = round parts (drift here) in
      let later = backlog_remains rest after turned.last calm.1 turned.has in
      Grows-weaken (0 + 1 + length rest) (suc (length rest)) (omega arith)
        (Grows-trans (0 + 1) (length rest) (Grows-trans 0 1 drifted turned) later)
