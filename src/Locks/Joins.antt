-- ===== src/Locks/Joins.antt =====
-- The threads of src/ that `join` waits for.
use connected_vehicle_platfo.Prelude.{ℕ, suc, List, [], ◌∷◌, update-all, arith}
use connected_vehicle_platfo.Locks.{
  Mutex, Code, finished, locked, either, again, then, Thread, thread, Threads, ThreadStep, acquires,
  releases, takes_one, takes_other, goes_round, leaves_loop, Runs, at_start, one_more, IsRanked,
  joins, comes_back, JoinsOnly,
}

pub then-JoinsOnly :
    (Target : ℕ → Type 0) (a b : Code)
    → JoinsOnly Target a
    → JoinsOnly Target b
    → JoinsOnly Target (then a b)
unfolding then
then-JoinsOnly Target finished b h k = k
then-JoinsOnly Target (locked m body rest) b (h, h') k = (h, then-JoinsOnly Target rest b h' k)
then-JoinsOnly Target (either a a') b (h, h') k =
    (then-JoinsOnly Target a b h k, then-JoinsOnly Target a' b h' k)
then-JoinsOnly Target (again body rest) b (h, h') k = (h, then-JoinsOnly Target rest b h' k)
then-JoinsOnly Target (joins t rest) b (h, h') k = (h, then-JoinsOnly Target rest b h' k)

pub JoinsOnly-map :
    (P Q : ℕ → Type 0) (a : Code) → ((k : ℕ) → P k → Q k) → JoinsOnly P a → JoinsOnly Q a
JoinsOnly-map P Q finished all h = tt
JoinsOnly-map P Q (locked m body rest) all (h, h') =
    (JoinsOnly-map P Q body all h, JoinsOnly-map P Q rest all h')
JoinsOnly-map P Q (either a b) all (h, h') = (JoinsOnly-map P Q a all h, JoinsOnly-map P Q b all h')
JoinsOnly-map P Q (again body rest) all (h, h') =
    (JoinsOnly-map P Q body all h, JoinsOnly-map P Q rest all h')
JoinsOnly-map P Q (joins k rest) all (h, h') = (all k h, JoinsOnly-map P Q rest all h')

-- Code that is ranked above 0 joins no thread.
pub ranked-JoinsOnly :
    (Target : ℕ → Type 0) (low : ℕ) (a : Code) → IsRanked (suc low) a → JoinsOnly Target a
ranked-JoinsOnly Target low finished h = tt
ranked-JoinsOnly Target low (locked m body rest) (above, below, inside, behind) =
    (ranked-JoinsOnly Target m.level body inside, ranked-JoinsOnly Target low rest behind)
ranked-JoinsOnly Target low (either a b) (h, h') =
    (ranked-JoinsOnly Target low a h, ranked-JoinsOnly Target low b h')
ranked-JoinsOnly Target low (again body rest) (h, h') =
    (ranked-JoinsOnly Target low body h, ranked-JoinsOnly Target low rest h')
ranked-JoinsOnly Target low (joins k rest) (low_zero, h) = absurd (omega arith)

abbrev pub ScopesJoinOnly : (ℕ → Type 0) → List (Mutex × Code) → Type 0
ScopesJoinOnly Target [] = Unit {0}
ScopesJoinOnly Target ((m, rest) ∷ scopes) = JoinsOnly Target rest × ScopesJoinOnly Target scopes

abbrev pub ThreadJoinsOnly : (ℕ → Type 0) → Thread → Type 0
ThreadJoinsOnly Target (thread code scopes) = JoinsOnly Target code × ScopesJoinOnly Target scopes

step-ThreadJoinsOnly :
    (Target : ℕ → Type 0) {Free : Mutex → Type 0} {Ended : ℕ → Type 0} {t t' : Thread}
    → ThreadStep Free Ended t t'
    → ThreadJoinsOnly Target t
    → ThreadJoinsOnly Target t'
step-ThreadJoinsOnly Target (acquires free) ((h, h'), outer) = (h, (h', outer))
step-ThreadJoinsOnly Target releases (h, (h', outer)) = (h', outer)
step-ThreadJoinsOnly Target takes_one ((h, h'), outer) = (h, outer)
step-ThreadJoinsOnly Target takes_other ((h, h'), outer) = (h', outer)
step-ThreadJoinsOnly Target (goes_round {body = body} {rest = rest}) ((h, h'), outer) =
    (then-JoinsOnly Target body (again body rest) h (h, h'), outer)
step-ThreadJoinsOnly Target (comes_back ended) ((h, h'), outer) = (h', outer)
step-ThreadJoinsOnly Target leaves_loop ((h, h'), outer) = (h', outer)

-- Each thread `j` joins threads of its own kind of targets only.
pub Runs-ThreadJoinsOnly :
    {n : ℕ} {f g : Threads} (Target : ℕ → ℕ → Type 0)
    → Runs n f g
    → ((j : ℕ) → ThreadJoinsOnly (Target j) (f j))
    → (j : ℕ) → ThreadJoinsOnly (Target j) (g j)
Runs-ThreadJoinsOnly Target at_start all = all
Runs-ThreadJoinsOnly Target (one_more {g = g} {t = t} i run below step) all =
    update-all (λ j. ThreadJoinsOnly (Target j)) g i t (Runs-ThreadJoinsOnly Target run all)
      (step-ThreadJoinsOnly (Target i) step (Runs-ThreadJoinsOnly Target run all i))
