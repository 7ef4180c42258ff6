-- ===== src/Locks/Methods/Joining.antt =====
-- The methods of src/: what they join, beside the order of their mutexes.
use connected_vehicle_platfo.Prelude.{refl, ℕ, Option, none, some, arith}
use connected_vehicle_platfo.Locks.{Code, finished, either, joins, then, IsRanked, JoinsOnly}
use connected_vehicle_platfo.Locks.Order.{then-IsRanked, IsRanked-lower}
use connected_vehicle_platfo.Locks.Joins.{then-JoinsOnly, ranked-JoinsOnly}
use connected_vehicle_platfo.Locks.Methods.{
  Client, connect, log, Service, start_transport, start, stop,
}
use connected_vehicle_platfo.Locks.Methods.Ranked.{connect-IsRanked, log-IsRanked}

-- Mutexes in the order of their levels, and no joins but of the targets.
abbrev pub IsOrderly : (ℕ → Type 0) → Code → Type 0
IsOrderly Target a = IsRanked 0 a × JoinsOnly Target a

pub then-IsOrderly :
    (Target : ℕ → Type 0) (a b : Code)
    → IsOrderly Target a
    → IsOrderly Target b
    → IsOrderly Target (then a b)
then-IsOrderly Target a b (ranked, only) (ranked', only') =
    (then-IsRanked 0 a b ranked ranked', then-JoinsOnly Target a b only only')

-- Code that joins nothing.
pub ranked-IsOrderly : (Target : ℕ → Type 0) (a : Code) → IsRanked 1 a → IsOrderly Target a
ranked-IsOrderly Target a h = (IsRanked-lower a (omega arith) h, ranked-JoinsOnly Target 0 a h)

module _ (Target : ℕ → Type 0) where
  either-IsOrderly :
      (a b : Code) → IsOrderly Target a → IsOrderly Target b → IsOrderly Target (either a b)
  either-IsOrderly a b (ranked, only) (ranked', only') = ((ranked, ranked'), (only, only'))

  pub log-IsOrderly : (l : ℕ) → IsOrderly Target (log l)
  log-IsOrderly l = ranked-IsOrderly Target (log l) (log-IsRanked l)

  log-then-IsOrderly :
      (l : ℕ) (rest : Code) → IsOrderly Target rest → IsOrderly Target (then (log l) rest)
  log-then-IsOrderly l rest h = then-IsOrderly Target (log l) rest (log-IsOrderly l) h

  module _ (worker : ℕ) (target : Target worker) where
    join-IsOrderly : IsOrderly Target (joins worker finished)
    join-IsOrderly = ((refl, tt), (target, tt))

    start_transport-IsOrderly :
        (c : Option Client) (l : ℕ) → IsOrderly Target (start_transport c l worker)
    unfolding start_transport
    start_transport-IsOrderly none l = log-IsOrderly l
    start_transport-IsOrderly (some c) l =
        let last = either finished (joins worker finished) in
        then-IsOrderly Target (connect c) (either (log l) (then (log l) last))
          (ranked-IsOrderly Target (connect c) (connect-IsRanked 1 c (omega arith)))
          (either-IsOrderly (log l) (then (log l) last) (log-IsOrderly l) (
            log-then-IsOrderly l last
              (either-IsOrderly finished (joins worker finished) (tt, tt) join-IsOrderly)))

    pub start-IsOrderly : (s : Service) → IsOrderly Target (start s worker)
    unfolding start
    start-IsOrderly s =
        let l = s.logger in
        let rest = start_transport s.client l worker in
        let asked = either (log l) (then (log l) rest) in
        either-IsOrderly finished (then (log l) asked) (tt, tt)
          (log-then-IsOrderly l asked (
            either-IsOrderly (log l) (then (log l) rest) (log-IsOrderly l)
              (log-then-IsOrderly l rest (start_transport-IsOrderly s.client l))))

    pub stop-IsOrderly : (s : Service) → IsOrderly Target (stop s worker)
    unfolding stop
    stop-IsOrderly s =
        either-IsOrderly finished (then (log s.logger) (joins worker finished)) (tt, tt)
          (log-then-IsOrderly s.logger (joins worker finished) join-IsOrderly)
