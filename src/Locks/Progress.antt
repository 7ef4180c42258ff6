-- ===== src/Locks/Progress.antt =====
-- The mutexes of src/: threads that take them in the order of their levels never block each other.
use connected_vehicle_platfo.Prelude.{
  ℕ, zero, suc, ◌+◌, ◌≤◌, ◌<◌, ◌≡◌, refl, sym, subst, ◌⊎◌, inl, inr, true, false, Bool-cases, List,
  [], ◌∷◌, ℕ_discrete, arith,
}
use connected_vehicle_platfo.Locks.{
  Mutex, levels, Code, finished, locked, either, again, Thread, thread, holds, Threads, IsFree,
  ThreadStep, acquires, releases, takes_one, leaves_loop, Runs, IsRanked, joins, comes_back,
  JoinsOnly, HasEnded,
}
use connected_vehicle_platfo.Locks.Order.{IsOrdered, Runs-IsOrdered, level-floor}
use connected_vehicle_platfo.Locks.Joins.{ThreadJoinsOnly, Runs-ThreadJoinsOnly}

-- Some thread below `n` holds the mutex, or it is free.
holder :
    (n : ℕ) (f : Threads) (m : Mutex) → ((j : ℕ) × (j < n) × (holds m (f j) ≡ true)) ⊎ IsFree n f m
holder zero f m = inr (λ j below. absurd (omega arith))
holder (suc n) f m = elim (Bool-cases (holds m (f n))) [
  | inl held ↦ inl (n, omega arith, held)
  | inr free ↦ elim (holder n f m) [
    | inl (j, below, held) ↦ inl (j, omega arith, held)
    | inr others ↦ inr (λ j below. elim (ℕ_discrete n j) [
      | yes last ↦ subst (λ k. holds m (f k) ≡ false) last free
      | no other ↦ others j (omega arith)
    ])
  ]
]

abbrev pub CanStep : ℕ → Threads → Type 0
CanStep n f = (i : ℕ) × (t : Thread) × (i < n) × ThreadStep (IsFree n f) (HasEnded f) (f i) t

-- A step of the thread that stands at index `i`.
step_at :
    (n : ℕ) (f : Threads) (i : ℕ) {t t' : Thread}
    → i < n
    → f i ≡ t
    → ThreadStep (IsFree n f) (HasEnded f) t t'
    → CanStep n f
step_at n f i {t' = t'} below at step =
    (i, t', below, subst (λ x. ThreadStep (IsFree n f) (HasEnded f) x t') (sym at) step)

-- A thread that holds a mutex can step, or waits for a mutex of a higher level.
holder_goes_on :
    (n : ℕ) (f : Threads) (i : ℕ) (m : Mutex) (t : Thread)
    → i < n
    → f i ≡ t
    → IsOrdered t
    → holds m t ≡ true
    → ((m' : Mutex) (body rest : Code) (scopes : List (Mutex × Code))
        → t ≡ thread (locked m' body rest) scopes
        → m.level < m'.level
        → CanStep n f)
    → CanStep n f
holder_goes_on n f i m (thread finished []) below at ordered h waits = absurd (ground arith)
holder_goes_on n f i m (thread finished ((l, rest) ∷ scopes)) below at ordered h waits =
    step_at n f i below at releases
holder_goes_on n f i m (thread (locked m' body rest) scopes) below at
      ((above, bounded, inside, behind), outer) h waits =
    let lower = level-floor m scopes outer h in waits m' body rest scopes refl (omega arith)
holder_goes_on n f i m (thread (either a b) scopes) below at ordered h waits =
    step_at n f i below at takes_one
holder_goes_on n f i m (thread (joins k rest) scopes) below at ((none_held, behind), outer) h
      waits =
    let lower = level-floor m scopes outer h in absurd (omega arith)
holder_goes_on n f i m (thread (again body rest) scopes) below at ordered h waits =
    step_at n f i below at leaves_loop

-- Levels end, so of threads that wait for each other the last one can step.
waiting_goes_on :
    (k n : ℕ) (f : Threads) (i : ℕ) (m : Mutex) (body rest : Code) (scopes : List (Mutex × Code))
    → ((j : ℕ) → IsOrdered (f j))
    → i < n
    → f i ≡ thread (locked m body rest) scopes
    → levels ≤ m.level + k
    → CanStep n f
waiting_goes_on zero n f i m body rest scopes all below at high =
    let ((above, bounded, inside, behind), outer) = subst IsOrdered at (all i) in
    absurd (omega arith)
waiting_goes_on (suc k) n f i m body rest scopes all below at high = elim (holder n f m) [
  | inr free ↦ step_at n f i below at (acquires free)
  | inl (j, below_j, held) ↦
      holder_goes_on n f j m (f j) below_j refl (all j) held (λ m' body' rest' scopes' at' higher.
        waiting_goes_on k n f j m' body' rest' scopes' all below_j at' (omega arith))
]

-- A thread has ended, or waits in `join`, or some thread can step.
active_or_joins :
    (n : ℕ) (f : Threads) (i : ℕ) (t : Thread)
    → ((j : ℕ) → IsOrdered (f j))
    → i < n
    → f i ≡ t
    → (t ≡ thread finished [])
      ⊎ (CanStep n f
          ⊎ ((k : ℕ) × (rest : Code) × (scopes : List (Mutex × Code)) × (t
                ≡ thread (joins k rest) scopes)))
active_or_joins n f i (thread finished []) all below at = inl refl
active_or_joins n f i (thread finished ((l, rest) ∷ scopes)) all below at =
    inr (inl (step_at n f i below at releases))
active_or_joins n f i (thread (locked m body rest) scopes) all below at =
    inr (inl (waiting_goes_on levels n f i m body rest scopes all below at (omega arith)))
active_or_joins n f i (thread (either a b) scopes) all below at =
    inr (inl (step_at n f i below at takes_one))
active_or_joins n f i (thread (again body rest) scopes) all below at =
    inr (inl (step_at n f i below at leaves_loop))
active_or_joins n f i (thread (joins k rest) scopes) all below at =
    inr (inr (k, rest, scopes, refl))

-- Thread `j` joins threads in `Target j` only, and these join none.
abbrev pub AreLeaves : ℕ → (ℕ → ℕ → Type 0) → Type 0
AreLeaves n Target = (j k : ℕ) → Target j k → (k < n) × ((l : ℕ) → ¬ Target k l)

module _ (n : ℕ) (Target : ℕ → ℕ → Type 0) (leaves : AreLeaves n Target) where
  active_goes_on :
      (f : Threads) (i : ℕ)
      → ((j : ℕ) → IsOrdered (f j))
      → ((j : ℕ) → ThreadJoinsOnly (Target j) (f j))
      → i < n
      → HasEnded f i ⊎ CanStep n f
  active_goes_on f i all targets below = elim (active_or_joins n f i (f i) all below refl) [
    | inl ended ↦ inl ended
    | inr (inl goes) ↦ inr goes
    | inr (inr (k, rest, scopes, at)) ↦
        let target = (subst (ThreadJoinsOnly (Target i)) at (targets i)).0.0 in
        let (below_k, none) = leaves i k target in
        elim (active_or_joins n f k (f k) all below_k refl) [
          | inl ended ↦ inr (step_at n f i below at (comes_back ended))
          | inr (inl goes) ↦ inr goes
          | inr (inr (l, rest', scopes', at')) ↦
              absurd (none l (subst (ThreadJoinsOnly (Target k)) at' (targets k)).0.0)
        ]
  ]

  -- Of the first `k` of the threads all have ended, or some thread can step.
  ended_or_goes_on :
      (k : ℕ) (f : Threads)
      → k ≤ n
      → ((j : ℕ) → IsOrdered (f j))
      → ((j : ℕ) → ThreadJoinsOnly (Target j) (f j))
      → ((j : ℕ) → j < k → HasEnded f j) ⊎ CanStep n f
  ended_or_goes_on zero f low all targets = inl (λ j below. absurd (omega arith))
  ended_or_goes_on (suc k) f low all targets = elim (active_goes_on f k all targets (omega arith)) [
    | inr goes ↦ inr goes
    | inl ended ↦ elim (ended_or_goes_on k f (omega arith) all targets) [
      | inr goes ↦ inr goes
      | inl others ↦ inl (λ j below. elim (ℕ_discrete k j) [
        | yes last ↦ subst (λ x. HasEnded f x) last ended
        | no other ↦ others j (omega arith)
      ])
    ]
  ]

  -- Threads that begin outside of every scope, with code whose mutexes are ranked.
  pub ranked_goes_on :
      (codes : ℕ → Code) {g : Threads}
      → ((j : ℕ) → IsRanked 0 (codes j))
      → ((j : ℕ) → JoinsOnly (Target j) (codes j))
      → Runs n (λ j. thread (codes j) []) g
      → ((j : ℕ) → j < n → HasEnded g j) ⊎ CanStep n g
  ranked_goes_on codes {g} ranked targets run =
      ended_or_goes_on n g (omega arith) (Runs-IsOrdered run (λ j. (ranked j, tt)))
        (Runs-ThreadJoinsOnly Target run (λ j. (targets j, tt)))
