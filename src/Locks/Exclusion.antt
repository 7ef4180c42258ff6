-- ===== src/Locks/Exclusion.antt =====
-- The mutexes of src/: no two threads hold the same one.
use connected_vehicle_platfo.Prelude.{
  ℕ, ◌≡◌, ◌⊎◌, inl, inr, refl, ◌∙◌, true, Bool-cases, List, [], ◌∷◌, arith, IsExclusive,
  update-IsExclusive,
}
use connected_vehicle_platfo.Locks.{
  Mutex, same_mutex, Code, thread, Thread, holds_in, holds, Threads, IsFree, ThreadStep, acquires,
  releases, takes_one, takes_other, goes_round, comes_back, leaves_loop, Runs, at_start, one_more,
}

same_mutex-same : (m l k : Mutex) → same_mutex m l ≡ true → same_mutex m k ≡ same_mutex l k
same_mutex-same m l k h = ground arith

holds_in-same :
    (m l : Mutex) (scopes : List (Mutex × Code))
    → same_mutex m l ≡ true
    → holds_in m scopes ≡ holds_in l scopes
holds_in-same m l [] h = refl
holds_in-same m l ((k, rest) ∷ scopes) h =
    rw (same_mutex-same m l k h, holds_in-same m l scopes h) refl

holds-same : (m l : Mutex) (t : Thread) → same_mutex m l ≡ true → holds m t ≡ holds l t
holds-same m l (thread code scopes) h = holds_in-same m l scopes h

-- A thread holds a mutex from before the step, or takes it while it is free.
step-holds :
    {n : ℕ} {Ended : ℕ → Type 0} {t t' : Thread} (f : Threads) (m : Mutex)
    → ThreadStep (IsFree n f) Ended t t'
    → holds m t' ≡ true
    → (holds m t ≡ true) ⊎ IsFree n f m
step-holds f m (acquires {m = l} {scopes = scopes} free) h = elim (Bool-cases (same_mutex m l)) [
  | inl same ↦ inr (λ j below. holds-same m l (f j) same ∙ free j below)
  | inr other ↦ inl (ground arith)
]
step-holds f m (releases {m = l}) h = inl (ground arith)
step-holds f m takes_one h = inl h
step-holds f m takes_other h = inl h
step-holds f m goes_round h = inl h
step-holds f m (comes_back ended) h = inl h
step-holds f m leaves_loop h = inl h

pub Runs-IsExclusive :
    {n : ℕ} {codes : ℕ → Code} {g : Threads} (m : Mutex)
    → Runs n (λ j. thread (codes j) []) g
    → IsExclusive (holds m) n g
Runs-IsExclusive m at_start = λ i j below below' h h'. absurd (ground arith)
Runs-IsExclusive {n = n} m (one_more {g = g} {t = t} i run below step) =
    update-IsExclusive (holds m) n g i t (Runs-IsExclusive m run) below (step-holds g m step)
