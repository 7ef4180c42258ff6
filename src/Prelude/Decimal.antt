-- ===== src/Prelude/Decimal.antt =====
-- Decimal notation: `std::to_string` of an integer and `<<` of an unsigned number.
use Prim.Native.Nat.{ℕ, zero, suc, ◌+◌, ◌-◌, ◌*◌, ◌/◌, ◌%◌, ◌<◌}
use mathlib.Core.Path.{◌≡◌, refl, ap, ◌∙◌}
use mathlib.Core.Logic.{inl, inr}
use mathlib.Core.List.{[], ◌∷◌}
use native.Mathlib.Omega.{arith}
use connected_vehicle_platfo.Prelude.Tests.{ltb, if◌then◌else◌, Bool-cases}
use connected_vehicle_platfo.Prelude.Strings.{Text}
use mathlib.Core.Bool.{false}
use connected_vehicle_platfo.Prelude.Readers.{holds}
use connected_vehicle_platfo.Prelude.Int.{ℤ, pos, negsuc}

-- The digits of `n`, in front of `rest`; `fuel` bounds their number.
digits_before : ℕ → ℕ → Text → Text
digits_before zero n rest = rest
digits_before (suc fuel) n rest =
    let more = digits_before fuel (n / 10) ((b'0' + n % 10) ∷ rest) in
    if ltb n 10 then (b'0' + n % 10) ∷ rest else more

unfoldable pub show_ℕ : ℕ → Text
unfolding digits_before
show_ℕ n = digits_before (suc n) n []

unfoldable pub show_ℤ : ℤ → Text
unfolding show_ℕ
show_ℤ (pos n) = show_ℕ n
show_ℤ (negsuc n) = b'-' ∷ show_ℕ (suc n)

-- The number that a text denotes, after the digits of `acc`.
unfoldable pub read_from : ℕ → Text → ℕ
read_from acc [] = acc
read_from acc (d ∷ ds) = read_from (acc * 10 + (d - b'0')) ds

unfoldable pub read_ℕ : Text → ℕ
unfolding read_from
read_ℕ = read_from 0

-- Reading goes through the digits of `n` and on with the rest.
read-digits_before :
    (fuel n : ℕ) (rest : Text)
    → n < fuel
    → read_from 0 (digits_before fuel n rest) ≡ read_from n rest
unfolding digits_before read_from
read-digits_before zero n rest h = elim h [ ]
read-digits_before (suc fuel) n rest h = elim (Bool-cases (ltb n 10)) [
  | inl small ↦ rw small (ap (λ (k : ℕ). read_from k rest) (ground arith))
  | inr large ↦ rw large (
      read-digits_before fuel (n / 10) ((b'0' + n % 10) ∷ rest) (ground arith)
      ∙ ap (λ (k : ℕ). read_from k rest) (omega arith))
]

pub read_ℕ-show_ℕ : (n : ℕ) → read_ℕ (show_ℕ n) ≡ n
unfolding read_ℕ show_ℕ read_from
read_ℕ-show_ℕ n = read-digits_before (suc n) n [] (omega arith)

-- No digit is a byte below '0'.
holds-digits_before :
    (stop fuel n : ℕ) (rest : Text)
    → stop < b'0'
    → holds stop (digits_before fuel n rest) ≡ holds stop rest
unfolding digits_before holds
holds-digits_before stop zero n rest h = refl
holds-digits_before stop (suc fuel) n rest h =
    ground (arith, holds-digits_before stop fuel (n / 10) ((b'0' + n % 10) ∷ rest))

pub holds-show_ℕ : (stop n : ℕ) → stop < b'0' → holds stop (show_ℕ n) ≡ false
unfolding show_ℕ holds
holds-show_ℕ stop n h = holds-digits_before stop (suc n) n [] h
