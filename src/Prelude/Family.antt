-- ===== src/Prelude/Family.antt =====
-- A family of things, one for each thread: a change at one index, and a sum over the first `n`.
use Prim.Native.Nat.{ℕ, zero, suc, ◌+◌, ◌≤◌, ◌<◌}
use mathlib.Core.Path.{◌≡◌, refl, sym, ◌∙◌, subst}
use mathlib.Core.Logic.{◌≢◌, ◌⊎◌, inl, inr, ite}
use mathlib.Core.Bool.{Bool, true, false}
use native.Mathlib.Decide.{dec_lt, ℕ_discrete}
use native.Mathlib.Omega.{arith}

abbrev pub update {ℓ} : {A : Type ℓ} → (ℕ → A) → ℕ → A → ℕ → A
update f i a j = ite (ℕ_discrete i j) a (f j)

pub update_here {ℓ} : {A : Type ℓ} (f : ℕ → A) (i : ℕ) (a : A) → update f i a i ≡ a
update_here f i a = ground arith

pub update_there {ℓ} : {A : Type ℓ} (f : ℕ → A) (i j : ℕ) (a : A) → i ≢ j → update f i a j ≡ f j
update_there f i j a other = ground arith

-- What holds of all members, and of the new one, holds after the change.
pub update-all {ℓ ℓ'} :
    {A : Type ℓ} (P : ℕ → A → Type ℓ') (f : ℕ → A) (i : ℕ) (a : A)
    → ((j : ℕ) → P j (f j))
    → P i a
    → (j : ℕ) → P j (update f i a j)
update-all P f i a all new j = elim (ℕ_discrete i j) as (λ d. P j (ite d a (f j))) [
  | yes same ↦ subst (λ k. P k a) same new
  | no other ↦ all j
]

module _ {ℓ} {A : Type ℓ} (weight : A → ℕ) where
  unfoldable pub sum_over : ℕ → (ℕ → A) → ℕ
  sum_over zero f = 0
  sum_over (suc n) f = sum_over n f + weight (f n)

  sum_over-unchanged :
      (n : ℕ) (f : ℕ → A) (i : ℕ) (a : A) → n ≤ i → sum_over n (update f i a) ≡ sum_over n f
  unfolding sum_over
  sum_over-unchanged zero f i a h = refl
  sum_over-unchanged (suc n) f i a h = ground (arith, sum_over-unchanged n f i a)

  pub sum_over-update :
      (n : ℕ) (f : ℕ → A) (i : ℕ) (a : A)
      → i < n
      → sum_over n (update f i a) + weight (f i) ≡ sum_over n f + weight a
  unfolding sum_over
  sum_over-update zero f i a h = absurd (omega arith)
  sum_over-update (suc n) f i a h = elim (dec_lt i n) [
    | yes below ↦ ground (arith, sum_over-update n f i a below)
    | no last ↦ ground (arith, sum_over-unchanged n f i a)
  ]

  pub sum_over-zero : (n : ℕ) (f : ℕ → A) → ((i : ℕ) → i < n → weight (f i) ≡ 0) → sum_over n f ≡ 0
  unfolding sum_over
  sum_over-zero zero f h = refl
  sum_over-zero (suc n) f h =
      let before = sum_over-zero n f (λ i below. h i (omega arith)) in
      omega (arith, h n (omega arith))

-- At most one of the first `n` members passes the test.
abbrev pub IsExclusive {ℓ} : {A : Type ℓ} → (A → Bool) → ℕ → (ℕ → A) → Type 0
IsExclusive test n f = (i j : ℕ) → i < n → j < n → test (f i) ≡ true → test (f j) ≡ true → i ≡ j

module _ {ℓ} {A : Type ℓ} (test : A → Bool) (n : ℕ) (f : ℕ → A) where
  -- A new member that passes, where the old one did or none does, beside another that passes.
  passes_alone :
      (i : ℕ) (a : A)
      → IsExclusive test n f
      → i < n
      → (test a ≡ true → (test (f i) ≡ true) ⊎ ((j : ℕ) → j < n → test (f j) ≡ false))
      → test a ≡ true
      → (j : ℕ) → j < n
      → test (f j) ≡ true
      → i ≡ j
  passes_alone i a exclusive below changes passes j below' passes' = elim (changes passes) [
    | inl before ↦ exclusive i j below below' before passes'
    | inr none ↦ let fails = none j below' in absurd (ground arith)
  ]

  pub update-IsExclusive :
      (i : ℕ) (a : A)
      → IsExclusive test n f
      → i < n
      → (test a ≡ true → (test (f i) ≡ true) ⊎ ((j : ℕ) → j < n → test (f j) ≡ false))
      → IsExclusive test n (update f i a)
  update-IsExclusive i a exclusive below changes j k below_j below_k =
      elim (ℕ_discrete i j)
        as (λ d. test (ite d a (f j)) ≡ true → test (update f i a k) ≡ true → j ≡ k) [
          | yes ij ↦
              elim (ℕ_discrete i k) as (λ d. test a ≡ true → test (ite d a (f k)) ≡ true → j ≡ k) [
                | yes ik ↦ λ h h'. sym ij ∙ ik
                | no other ↦
                    λ h h'. sym ij ∙ passes_alone i a exclusive below changes h k below_k h'
              ]
          | no other ↦
              elim (ℕ_discrete i k)
                as (λ d. test (f j) ≡ true → test (ite d a (f k)) ≡ true → j ≡ k) [
                  | yes ik ↦
                      λ h h'. sym (passes_alone i a exclusive below changes h' j below_j h) ∙ ik
                  | no others ↦ exclusive j k below_j below_k
                ]
        ]
