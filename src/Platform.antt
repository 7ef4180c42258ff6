-- ===== src/Platform.antt =====
-- What the code takes from the operating system and the C++ library: clocks, sleeping, the console
-- and the file system. It is a parameter of the model, over an unknown world `W`.
use connected_vehicle_platfo.Prelude.{ℕ, Bool, ℤ, Text, Action, outside}

pub record Platform (W : Type 0) : Type 0 where
  pub steady_now : Action W ℤ  -- std::chrono::steady_clock::now, in nanoseconds
  pub sleep_for : ℕ → W → W  -- std::this_thread::sleep_for, in milliseconds
  pub local_time : Text → Action W Text  -- system_clock::now, localtime_r and put_time of a format
  pub write_stdout : Text → W → W
  pub write_stderr : Text → W → W
  pub create_directories : Text → W → W
  pub open_append : Text → Action W Bool  -- opening an std::ofstream in mode app
  pub write_file : Text → Text → W → W  -- `<<` to that stream, by the path it is open on

-- The same calls, where an object keeps fields of its own beside the world.
abbrev pub beside : {C W : Type 0} → Platform W → Platform (C × W)
beside platform = record {
  steady_now = outside platform.steady_now;
  sleep_for = λ ms s. (s.0, platform.sleep_for ms s.1);
  local_time = λ format. outside (platform.local_time format);
  write_stdout = λ text s. (s.0, platform.write_stdout text s.1);
  write_stderr = λ text s. (s.0, platform.write_stderr text s.1);
  create_directories = λ path s. (s.0, platform.create_directories path s.1);
  open_append = λ path. outside (platform.open_append path);
  write_file = λ path text s. (s.0, platform.write_file path text s.1);
}
