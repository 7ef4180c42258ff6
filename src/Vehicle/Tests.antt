-- ===== src/Vehicle/Tests.antt =====
-- src/vehicle.cpp at a concrete vehicle.
use connected_vehicle_platfo.Prelude.{◌≡◌, refl, pos, codes, holds, show_ℤ}
use connected_vehicle_platfo.Vehicle.{Vehicle, describe}
use connected_vehicle_platfo.Vehicle.Description.{read_year, read_year-describe}

abbrev roadster : Vehicle
roadster = record { brand = codes "Tesla"; model = codes "Roadster"; year = pos 2024 }

describe_test : describe roadster ≡ codes "Tesla Roadster (2024)"
unfolding describe show_ℤ
describe_test = refl

read_year-describe_example : read_year (describe roadster) ≡ 2024
unfolding holds
read_year-describe_example = read_year-describe roadster 2024 refl refl refl
