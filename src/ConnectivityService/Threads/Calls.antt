-- ===== src/ConnectivityService/Threads/Calls.antt =====
-- src/ConnectivityService/connectivity_service.cpp: `start` and `stop` as functions, against their
-- steps.
use connected_vehicle_platfo.Prelude.{
  ◌≡◌, refl, sym, ◌∙◌, subst, inl, inr, Bool, true, false, some, List,
}
use connected_vehicle_platfo.ConnectivityService.{
  ServiceState, publishing, disconnected, stopped, ConnectivityService, Parts, Here, start, stop,
}
use connected_vehicle_platfo.ConnectivityService.Startup.{start-Outcome}
use connected_vehicle_platfo.ConnectivityService.Kept.{Drifts}
use connected_vehicle_platfo.ConnectivityService.Shutdown.{stop_outcome}
use connected_vehicle_platfo.ConnectivityService.Threads.{
  idle, begun, asking, dialling, failing, spawning, spawned, stopping, joining, joined, threw,
  Worker, absent, looping, Threads, threads, is_looping, StartStep, finds_running, sets_running,
  stores_starting, is_refused, is_granted, connects, resets_running, spawns, ends_start, StopStep,
  clears_running, requests, joins, ends_stop, WorkerStep, sees_request, returns,
}

abbrev pub worker_of : Bool → Worker
worker_of true = looping
worker_of false = absent

-- The shared fields of a service between two calls, with no stop requested of its worker.
abbrev pub view : {W : Type 0} → Bool → ConnectivityService W → Threads
view requested s = threads s.state s.running idle (worker_of s.worker) requested

view_is :
    {W : Type 0} (s : ConnectivityService W) {state : ServiceState} {running worker : Bool}
    (q : Bool)
    → s.state ≡ state
    → s.running ≡ running
    → s.worker ≡ worker
    → view q s ≡ threads state running idle (worker_of worker) q
view_is s q e f g = λ i. threads (e i) (f i) idle (worker_of (g i)) q

-- The owner's thread is between two calls.
abbrev pub is_between : Threads → Bool
is_between (threads s r idle w q) = true
is_between (threads s r begun w q) = false
is_between (threads s r asking w q) = false
is_between (threads s r dialling w q) = false
is_between (threads s r failing w q) = false
is_between (threads s r spawning w q) = false
is_between (threads s r spawned w q) = false
is_between (threads s r stopping w q) = false
is_between (threads s r joining w q) = false
is_between (threads s r joined w q) = false
is_between (threads s r threw w q) = false

-- One call, from its first step to the one by which it returns: the steps of the method, and between
-- them steps beside it.
pub data OneCall (OfMethod Beside : Threads → Threads → Type 0) : Threads → Threads → Type 0 where
  returns_by :
      {t t' : Threads} → OfMethod t t' → is_between t' ≡ true → OneCall OfMethod Beside t t'
  goes_on :
      {t t' t'' : Threads}
      → OfMethod t t'
      → is_between t' ≡ false
      → OneCall OfMethod Beside t' t''
      → OneCall OfMethod Beside t t''
  meanwhile :
      {t t' t'' : Threads}
      → Beside t t'
      → OneCall OfMethod Beside t' t''
      → OneCall OfMethod Beside t t''

-- No other thread steps.
abbrev pub Nobody : Threads → Threads → Type 0
Nobody t t' = ⊥

start_runs :
    (s : ServiceState) (w : Worker) (q : Bool)
    → OneCall StartStep Nobody (threads s true idle w q) (threads s true idle w q)
start_runs s w q = returns_by finds_running refl

start_succeeds :
    (s : ServiceState)
    → OneCall StartStep Nobody
        (threads s false idle absent false)
        (threads publishing true idle looping false)
start_succeeds s = goes_on sets_running refl (
    goes_on stores_starting refl (
      goes_on is_granted refl
        (goes_on connects refl (goes_on spawns refl (returns_by ends_start refl)))))

start_fails :
    (s : ServiceState)
    → OneCall StartStep Nobody
        (threads s false idle absent false)
        (threads disconnected false idle absent false)
start_fails s =
    goes_on sets_running refl
      (goes_on stores_starting refl (goes_on is_refused refl (returns_by resets_running refl)))

stop_finishes :
    (s : ServiceState)
    → OneCall StopStep WorkerStep
        (threads s true idle looping false)
        (threads stopped false idle absent true)
stop_finishes s = goes_on clears_running refl (
    goes_on (requests is_looping) refl
      (meanwhile sees_request (meanwhile returns (goes_on joins refl (returns_by ends_stop refl)))))

module _ {W D : Type 0} (parts : Parts W D) where
  -- On a service that has a worker exactly if it runs, the call of start as one function is one
  -- call of start in steps: from the shared fields before it, between two calls, steps of start
  -- alone lead without a return before the last of them to the return with the shared fields after
  -- it; its answer is running_ after it.
  pub start-OneCall :
      (s : ConnectivityService W) (w : W)
      → s.worker ≡ s.running
      → let (ok, (after, w')) = start parts (s, w) in
        OneCall StartStep Nobody (view false s) (view false after) × (ok ≡ after.running)
  start-OneCall s w has_worker = elim (start-Outcome parts s w) [
    | inr (runs, same) ↦ rw same (
      subst (λ (t : Threads). OneCall StartStep Nobody t t) (sym (view_is s false refl runs refl))
          (start_runs s.state (worker_of s.worker) false),
      sym runs,
    )
    | inl (stopped_now, inl (ok, up)) ↦ (
      subst (OneCall StartStep Nobody (view false s))
          (sym (view_is (start parts (s, w)).1.0 false up.state up.running up.worker))
          (subst
            (λ (t : Threads).
              OneCall StartStep Nobody t (threads publishing true idle looping false))
            (sym (view_is s false refl stopped_now (has_worker ∙ stopped_now)))
            (start_succeeds s.state)),
      ok ∙ sym up.running,
    )
    | inl (stopped_now, inr (failed, down)) ↦ (
      subst (OneCall StartStep Nobody (view false s))
          (sym (
            view_is (start parts (s, w)).1.0 false down.state down.running
              (down.worker ∙ has_worker ∙ stopped_now)))
          (subst
            (λ (t : Threads).
              OneCall StartStep Nobody t (threads disconnected false idle absent false))
            (sym (view_is s false refl stopped_now (has_worker ∙ stopped_now)))
            (start_fails s.state)),
      failed ∙ sym down.running,
    )
  ]

  -- On a service that runs and has a worker, where what other threads do leaves running_ and
  -- worker_ alone, the call of stop as one function returns true and is one call of stop in steps:
  -- from the shared fields before it, between two calls, the steps of stop, with steps of the
  -- worker and of none else between them, lead without a return before the last of them to the
  -- return with the shared fields after it.
  pub stop-OneCall :
      (remaining : List (Here parts → Here parts)) (now : Here parts)
      → Drifts parts remaining
      → now.0.running ≡ true
      → now.0.worker ≡ true
      → (after : Here parts) × (stop parts remaining now ≡ some (true, after))
        × OneCall StopStep WorkerStep (view false now.0) (view true after.0)
  stop-OneCall remaining now calm runs has_thread =
      let (after, returned, state, running, worker, _) =
        stop_outcome parts remaining now calm runs has_thread in
      (
        after,
        returned,
        subst (OneCall StopStep WorkerStep (view false now.0))
            (sym (view_is after.0 true state running worker))
            (subst
              (λ (t : Threads).
                OneCall StopStep WorkerStep t (threads stopped false idle absent true))
              (sym (view_is now.0 false refl runs has_thread)) (stop_finishes now.0.state)),
      )
