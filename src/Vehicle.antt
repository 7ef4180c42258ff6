-- ===== src/Vehicle.antt =====
-- include/connected_vehicle_platform/vehicle.hpp and src/vehicle.cpp: a vehicle and its description.
pub mod Description
mod Tests
use connected_vehicle_platfo.Prelude.{ℤ, ◌++◌, Text, codes, show_ℤ}

pub record Vehicle : Type 0 where
  pub brand : Text  -- `make`
  pub model : Text
  pub year : ℤ

pub describe : Vehicle → Text
describe v = v.brand ++ (codes " " ++ (v.model ++ (codes " (" ++ (show_ℤ v.year ++ codes ")"))))
