-- ===== src/Locks.antt =====
-- The mutexes of src/ and the order in which threads take them. Of a method only its locks are kept:
-- the sections under a `std::scoped_lock`, the branches and the loops, and the `join` of a thread. A
-- thread waits where it comes to a section whose mutex another thread holds, and in `join` until the
-- other thread has ended.
pub mod Order
pub mod Joins
pub mod Progress
pub mod Exclusion
pub mod Methods
pub mod Program
mod Tests
use connected_vehicle_platfo.Prelude.{
  ℕ, suc, ◌≤◌, ◌<◌, ◌≡◌, ◌==◌, ◌&&◌, ◌||◌, Bool, true, false, List, [], ◌∷◌, update,
}

-- The `mutex_` of an object. Classes have levels: 1 for TelemetryManager, 2 for MqttClient and
-- SomeipClient, 3 for PahoMqttBackend, 4 for Logger.
pub record Mutex : Type 0 where
  pub level : ℕ
  pub object : ℕ

abbrev pub levels : ℕ
levels = 5

abbrev pub same_mutex : Mutex → Mutex → Bool
same_mutex m n = m.level == n.level && m.object == n.object

-- What is left of a thread's code: `locked m body rest` has `body` in the scope of a lock of `m`,
-- `again body rest` has `body` any number of times before `rest`, and `joins k rest` waits for the end
-- of thread `k`.
pub data Code : Type 0 where
  finished : Code
  locked : Mutex → Code → Code → Code
  either : Code → Code → Code
  again : Code → Code → Code
  joins : ℕ → Code → Code

unfoldable pub then : Code → Code → Code
then finished d = d
then (locked m body rest) d = locked m body (then rest d)
then (either a b) d = either (then a d) (then b d)
then (again body rest) d = again body (then rest d)
then (joins k rest) d = joins k (then rest d)

-- The code up to the end of the innermost scope, and the scopes around it: the mutex that the end of
-- each releases, and the code behind it.
pub data Thread : Type 0 where
  thread : Code → List (Mutex × Code) → Thread

abbrev pub holds_in : Mutex → List (Mutex × Code) → Bool
holds_in m [] = false
holds_in m ((l, rest) ∷ scopes) = same_mutex m l || holds_in m scopes

abbrev pub holds : Mutex → Thread → Bool
holds m (thread code scopes) = holds_in m scopes

-- The first `n` threads. A mutex is free if none of them holds it.
abbrev pub Threads : Type 0
Threads = ℕ → Thread

abbrev pub IsFree : ℕ → Threads → Mutex → Type 0
IsFree n f m = (j : ℕ) → j < n → holds m (f j) ≡ false

-- A thread that has come to the end of its code.
abbrev pub HasEnded : Threads → ℕ → Type 0
HasEnded f k = f k ≡ thread finished []

-- The steps of one thread, by which mutexes are free and which threads have ended.
pub data ThreadStep (Free : Mutex → Type 0) (Ended : ℕ → Type 0) : Thread → Thread → Type 0 where
  acquires :
      {m : Mutex} {body rest : Code} {scopes : List (Mutex × Code)}
      → Free m
      → ThreadStep Free Ended
          (thread (locked m body rest) scopes)
          (thread body ((m, rest) ∷ scopes))
  releases :
      {m : Mutex} {rest : Code} {scopes : List (Mutex × Code)}
      → ThreadStep Free Ended (thread finished ((m, rest) ∷ scopes)) (thread rest scopes)
  takes_one :
      {a b : Code} {scopes : List (Mutex × Code)}
      → ThreadStep Free Ended (thread (either a b) scopes) (thread a scopes)
  takes_other :
      {a b : Code} {scopes : List (Mutex × Code)}
      → ThreadStep Free Ended (thread (either a b) scopes) (thread b scopes)
  goes_round :
      {body rest : Code} {scopes : List (Mutex × Code)}
      → ThreadStep Free Ended
          (thread (again body rest) scopes)
          (thread (then body (again body rest)) scopes)
  comes_back :
      {k : ℕ} {rest : Code} {scopes : List (Mutex × Code)}
      → Ended k
      → ThreadStep Free Ended (thread (joins k rest) scopes) (thread rest scopes)
  leaves_loop :
      {body rest : Code} {scopes : List (Mutex × Code)}
      → ThreadStep Free Ended (thread (again body rest) scopes) (thread rest scopes)

-- What `n` threads can come to from `f`.
pub data Runs (n : ℕ) (f : Threads) : Threads → Type 0 where
  at_start : Runs n f f
  one_more :
      {g : Threads} {t : Thread} (i : ℕ)
      → Runs n f g
      → i < n
      → ThreadStep (IsFree n g) (HasEnded g) (g i) t
      → Runs n f (update g i t)

-- In the code every mutex has a level from `low` on, and inside its scope only higher ones are taken.
-- Above level 0 no thread is joined.
abbrev pub IsRanked : ℕ → Code → Type 0
IsRanked low finished = Unit {0}
IsRanked low (locked m body rest) =
    (low ≤ m.level) × (m.level < levels) × IsRanked (suc m.level) body × IsRanked low rest
IsRanked low (either a b) = IsRanked low a × IsRanked low b
IsRanked low (again body rest) = IsRanked low body × IsRanked low rest
IsRanked low (joins k rest) = (low ≡ 0) × IsRanked low rest

-- The threads that the code joins are in `Target`.
abbrev pub JoinsOnly : (ℕ → Type 0) → Code → Type 0
JoinsOnly Target finished = Unit {0}
JoinsOnly Target (locked m body rest) = JoinsOnly Target body × JoinsOnly Target rest
JoinsOnly Target (either a b) = JoinsOnly Target a × JoinsOnly Target b
JoinsOnly Target (again body rest) = JoinsOnly Target body × JoinsOnly Target rest
JoinsOnly Target (joins k rest) = Target k × JoinsOnly Target rest
