-- ===== src/Prelude/Readers.antt =====
-- Readers of text, by which statements say what a text tells: up to a byte, and behind it.
use Prim.Native.Nat.{ℕ}
use mathlib.Core.Path.{◌≡◌, refl}
use mathlib.Core.Bool.{Bool, false, ◌||◌}
use mathlib.Core.List.{[], ◌∷◌, ◌++◌}
use native.Mathlib.Omega.{arith}
use connected_vehicle_platfo.Prelude.Tests.{◌==◌, if◌then◌else◌}
use connected_vehicle_platfo.Prelude.Strings.{Text}

unfoldable pub until : ℕ → Text → Text
until stop [] = []
until stop (c ∷ cs) = if c == stop then [] else c ∷ until stop cs

unfoldable pub after : ℕ → Text → Text
after stop [] = []
after stop (c ∷ cs) = if c == stop then cs else after stop cs

unfoldable pub holds : ℕ → Text → Bool
holds stop [] = false
holds stop (c ∷ cs) = c == stop || holds stop cs

pub until-append :
    (stop : ℕ) (t rest : Text) → holds stop t ≡ false → until stop (t ++ stop ∷ rest) ≡ t
unfolding until holds
until-append stop [] rest h = ground arith
until-append stop (c ∷ cs) rest h = ground (arith, until-append stop cs rest)

pub after-append :
    (stop : ℕ) (t rest : Text) → holds stop t ≡ false → after stop (t ++ rest) ≡ after stop rest
unfolding after holds
after-append stop [] rest h = refl
after-append stop (c ∷ cs) rest h = ground (arith, after-append stop cs rest)
