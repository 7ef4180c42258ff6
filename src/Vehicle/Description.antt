-- ===== src/Vehicle/Description.antt =====
-- src/vehicle.cpp: the year can be read back from the description.
use connected_vehicle_platfo.Prelude.{
  ℕ, ◌≡◌, ap, ◌∙◌, false, ◌++◌, ◌∷◌, [], pos, ℤ, Text, until, after, holds, until-append,
  after-append, read_ℕ, show_ℕ, show_ℤ, read_ℕ-show_ℕ, holds-show_ℕ, arith,
}
use connected_vehicle_platfo.Vehicle.{Vehicle, describe}

-- A reader of the number in parentheses.
abbrev pub read_year : Text → ℕ
read_year text = read_ℕ (until b')' (after b'(' text))

-- Where neither the brand nor the model has an opening parenthesis, the year of a vehicle made in
-- the year 0 or later is read back from its description.
pub read_year-describe :
    (v : Vehicle) (year : ℕ)
    → v.year ≡ pos year
    → holds b'(' v.brand ≡ false
    → holds b'(' v.model ≡ false
    → read_year (describe v) ≡ year
unfolding describe after show_ℤ
read_year-describe v year dated plain_brand plain_model =
    ap (λ (t : Text). read_ℕ (until b')' t))
      (after-append b'(' v.brand _ plain_brand ∙ after-append b'(' v.model _ plain_model)
    ∙ ap (λ (y : ℤ). read_ℕ (until b')' (show_ℤ y ++ b')' ∷ []))) dated
    ∙ ap read_ℕ (until-append b')' (show_ℕ year) [] (holds-show_ℕ b')' year (omega arith)))
    ∙ read_ℕ-show_ℕ year
