-- ===== src/Locks/Order.antt =====
-- The mutexes of src/: inside a section only mutexes of higher levels are taken.
use connected_vehicle_platfo.Prelude.{
  ℕ, suc, ◌≤◌, ◌<◌, ◌≡◌, inl, inr, true, Bool-cases, List, [], ◌∷◌, update-all, arith,
}
use connected_vehicle_platfo.Locks.{
  Mutex, Code, finished, locked, either, again, then, Thread, thread, holds_in, Threads, ThreadStep,
  acquires, releases, takes_one, takes_other, goes_round, leaves_loop, Runs, at_start, one_more,
  IsRanked, joins, comes_back,
}

-- The least level that may be taken inside the scopes.
abbrev pub floor : List (Mutex × Code) → ℕ
floor [] = 0
floor ((m, rest) ∷ scopes) = suc m.level

abbrev pub AreOrdered : List (Mutex × Code) → Type 0
AreOrdered [] = Unit {0}
AreOrdered ((m, rest) ∷ scopes) =
    (floor scopes ≤ m.level) × IsRanked (floor scopes) rest × AreOrdered scopes

abbrev pub IsOrdered : Thread → Type 0
IsOrdered (thread code scopes) = IsRanked (floor scopes) code × AreOrdered scopes

pub then-IsRanked :
    (low : ℕ) (a b : Code) → IsRanked low a → IsRanked low b → IsRanked low (then a b)
unfolding then
then-IsRanked low finished b h k = k
then-IsRanked low (locked m body rest) b (above, below, inside, behind) k =
    (above, below, inside, then-IsRanked low rest b behind k)
then-IsRanked low (either a a') b (h, h') k =
    (then-IsRanked low a b h k, then-IsRanked low a' b h' k)
then-IsRanked low (again body rest) b (h, h') k = (h, then-IsRanked low rest b h' k)
then-IsRanked low (joins t rest) b (outer, h) k = (outer, then-IsRanked low rest b h k)

step-IsOrdered :
    {Free : Mutex → Type 0} {Ended : ℕ → Type 0} {t t' : Thread}
    → ThreadStep Free Ended t t'
    → IsOrdered t
    → IsOrdered t'
step-IsOrdered (acquires free) ((above, below, inside, behind), outer) =
    (inside, (above, behind, outer))
step-IsOrdered releases (h, (above, behind, outer)) = (behind, outer)
step-IsOrdered takes_one ((h, h'), outer) = (h, outer)
step-IsOrdered takes_other ((h, h'), outer) = (h', outer)
step-IsOrdered (goes_round {body = body} {rest = rest} {scopes = scopes}) ((h, h'), outer) =
    (then-IsRanked (floor scopes) body (again body rest) h (h, h'), outer)
step-IsOrdered (comes_back ended) ((none_held, h), outer) = (h, outer)
step-IsOrdered leaves_loop ((h, h'), outer) = (h', outer)

pub Runs-IsOrdered :
    {n : ℕ} {f g : Threads} → Runs n f g → ((j : ℕ) → IsOrdered (f j)) → (j : ℕ) → IsOrdered (g j)
Runs-IsOrdered at_start all = all
Runs-IsOrdered (one_more {g = g} {t = t} i run below step) all =
    update-all (λ j. IsOrdered) g i t (Runs-IsOrdered run all)
      (step-IsOrdered step (Runs-IsOrdered run all i))

-- A thread that holds a mutex goes on to higher levels only.
pub level-floor :
    (m : Mutex) (scopes : List (Mutex × Code))
    → AreOrdered scopes
    → holds_in m scopes ≡ true
    → m.level < floor scopes
level-floor m [] ordered h = absurd (ground arith)
level-floor m ((l, rest) ∷ scopes) (above, behind, ordered) h =
    elim (Bool-cases (holds_in m scopes)) [
      | inl outer ↦ let lower = level-floor m scopes ordered outer in omega arith
      | inr none_outer ↦ ground arith
    ]

-- Ranked from `low` on is ranked from less on.
pub IsRanked-lower : {low low' : ℕ} (a : Code) → low' ≤ low → IsRanked low a → IsRanked low' a
IsRanked-lower finished less h = tt
IsRanked-lower (locked m body rest) less (above, below, inside, behind) =
    (omega arith, below, inside, IsRanked-lower rest less behind)
IsRanked-lower (either a b) less (h, h') = (IsRanked-lower a less h, IsRanked-lower b less h')
IsRanked-lower (again body rest) less (h, h') =
    (IsRanked-lower body less h, IsRanked-lower rest less h')
IsRanked-lower (joins k rest) less (zero_low, h) = (omega arith, IsRanked-lower rest less h)
