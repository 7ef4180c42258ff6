-- ===== src/Locks/Methods/Ranked.antt =====
-- The methods of src/ take mutexes in the order of their levels.
use connected_vehicle_platfo.Prelude.{ℕ, ◌≤◌, Option, none, some, arith}
use connected_vehicle_platfo.Locks.{Code, finished, either, then, IsRanked}
use connected_vehicle_platfo.Locks.Order.{then-IsRanked}
use connected_vehicle_platfo.Locks.Methods.{
  Client, mqtt, someip, connect, disconnect, reconnect, is_connected, publish, subscribe, Manager,
  queue_message, publish_or_queue, publish_sample, flush_with, flush_queue, log, Service,
  publish_with, publish_telemetry, publish_step, check_connection, round, finish, run_loop,
}

pub connect-IsRanked : (low : ℕ) (c : Client) → low ≤ 2 → IsRanked low (connect c)
connect-IsRanked low (mqtt c b) h = ground arith
connect-IsRanked low (someip c) h = ground arith

pub disconnect-IsRanked : (low : ℕ) (c : Client) → low ≤ 2 → IsRanked low (disconnect c)
disconnect-IsRanked low (mqtt c b) h = ground arith
disconnect-IsRanked low (someip c) h = ground arith

pub reconnect-IsRanked : (low : ℕ) (c : Client) → low ≤ 2 → IsRanked low (reconnect c)
unfolding reconnect
reconnect-IsRanked low (mqtt c b) h =
    then-IsRanked low (disconnect (mqtt c b)) (either finished (connect (mqtt c b)))
      (disconnect-IsRanked low (mqtt c b) h) (tt, connect-IsRanked low (mqtt c b) h)
reconnect-IsRanked low (someip c) h =
    then-IsRanked low (disconnect (someip c)) (connect (someip c))
      (disconnect-IsRanked low (someip c) h) (connect-IsRanked low (someip c) h)

pub is_connected-IsRanked : (low : ℕ) (c : Client) → low ≤ 2 → IsRanked low (is_connected c)
is_connected-IsRanked low (mqtt c b) h = ground arith
is_connected-IsRanked low (someip c) h = ground arith

pub publish-IsRanked : (low : ℕ) (c : Client) → low ≤ 2 → IsRanked low (publish c)
publish-IsRanked low (mqtt c b) h = ground arith
publish-IsRanked low (someip c) h = ground arith

pub subscribe-IsRanked : (low : ℕ) (c : Client) → low ≤ 2 → IsRanked low (subscribe c)
subscribe-IsRanked low (mqtt c b) h = ground arith
subscribe-IsRanked low (someip c) h = ground arith

pub queue_message-IsRanked : (m : Manager) → IsRanked 1 (queue_message m)
queue_message-IsRanked m = ground arith

publish_or_queue-IsRanked : (c : Option Client) (m : Manager) → IsRanked 1 (publish_or_queue c m)
unfolding publish_or_queue
publish_or_queue-IsRanked none m = queue_message-IsRanked m
publish_or_queue-IsRanked (some c) m =
    then-IsRanked 1 (is_connected c) _ (is_connected-IsRanked 1 c (omega arith)) (
      then-IsRanked 1 (publish c) _ (publish-IsRanked 1 c (omega arith))
          (tt, queue_message-IsRanked m),
      queue_message-IsRanked m,
    )

pub publish_sample-IsRanked : (m : Manager) → IsRanked 1 (publish_sample m)
unfolding publish_sample
publish_sample-IsRanked m = publish_or_queue-IsRanked m.client m

flush_with-IsRanked : (c : Option Client) → IsRanked 2 (flush_with c)
unfolding flush_with
flush_with-IsRanked none = tt
flush_with-IsRanked (some c) =
    then-IsRanked 2 (is_connected c) _ (is_connected-IsRanked 2 c (omega arith))
      (tt, (publish-IsRanked 2 c (omega arith), tt))

pub flush_queue-IsRanked : (m : Manager) → IsRanked 1 (flush_queue m)
unfolding flush_queue
flush_queue-IsRanked m = (omega arith, omega arith, flush_with-IsRanked m.client, tt)

pub log-IsRanked : (l : ℕ) → IsRanked 1 (log l)
log-IsRanked l = ground arith

-- A line, and what comes after it.
log-then-IsRanked : (l : ℕ) (rest : Code) → IsRanked 1 rest → IsRanked 1 (then (log l) rest)
log-then-IsRanked l rest h = then-IsRanked 1 (log l) rest (log-IsRanked l) h

publish_with-IsRanked : (m : Option Manager) → IsRanked 1 (publish_with m)
unfolding publish_with
publish_with-IsRanked none = tt
publish_with-IsRanked (some m) = publish_sample-IsRanked m

pub publish_telemetry-IsRanked : (s : Service) → IsRanked 1 (publish_telemetry s)
unfolding publish_telemetry
publish_telemetry-IsRanked s = publish_with-IsRanked s.manager

publish_step-IsRanked : (s : Service) → IsRanked 1 (publish_step s)
unfolding publish_step
publish_step-IsRanked s =
    then-IsRanked 1 (publish_telemetry s) _ (publish_telemetry-IsRanked s)
      (tt, log-IsRanked s.logger)

check_connection-IsRanked : (c : Option Client) (s : Service) → IsRanked 1 (check_connection c s)
unfolding check_connection
check_connection-IsRanked none s = log-IsRanked s.logger
check_connection-IsRanked (some c) s =
    let l = s.logger in
    let step = publish_step-IsRanked s in
    then-IsRanked 1 (is_connected c) _ (is_connected-IsRanked 1 c (omega arith)) (
      step,
      log-then-IsRanked l _ (
          then-IsRanked 1 (reconnect c) _ (reconnect-IsRanked 1 c (omega arith))
            (tt, log-then-IsRanked l _ step)),
    )

finish-IsRanked : (c : Option Client) (l : ℕ) → IsRanked 1 (finish c l)
unfolding finish
finish-IsRanked none l = log-IsRanked l
finish-IsRanked (some c) l =
    then-IsRanked 1 (disconnect c) _ (disconnect-IsRanked 1 c (omega arith)) (log-IsRanked l)

round-IsRanked : (s : Service) → IsRanked 1 (round s)
unfolding round
round-IsRanked s =
    let l = s.logger in
    let connection = check_connection-IsRanked s.client s in
    let rest = check_connection s.client s in
    (
      connection,
      log-then-IsRanked l (either (log l) (then (log l) rest))
          (log-IsRanked l, log-then-IsRanked l rest connection),
    )

pub run_loop-IsRanked : (s : Service) → IsRanked 1 (run_loop s)
unfolding run_loop
run_loop-IsRanked s = (round-IsRanked s, finish-IsRanked s.client s.logger)
