-- ===== src/Logger.antt =====
-- include/connected_vehicle_platform/logger.hpp and src/Logger/logger.cpp: a line for the console
-- and for a file. The mutex is held while a line is written, so a line is one step.
pub mod Line
pub mod Mirror
mod Tests
use connected_vehicle_platfo.Prelude.{
  ℕ, Bool, true, false, ◌==◌, not, List, [], ◌∷◌, ◌++◌, Text, codes, show_ℕ, is_empty, Action,
  if◌then◌else◌,
}
use connected_vehicle_platfo.Platform.{Platform}

abbrev pub default_log_path : Text
default_log_path = codes "logs/vehicle.log"

pub data LogLevel : Type 0 where
  trace debug info warning error fatal : LogLevel

-- The switch covers every level: its `return "INFO"` at the end is never reached.
unfoldable pub level_to_string : LogLevel → Text
level_to_string trace = codes "TRACE"
level_to_string debug = codes "DEBUG"
level_to_string info = codes "INFO"
level_to_string warning = codes "WARNING"
level_to_string error = codes "ERROR"
level_to_string fatal = codes "FATAL"

-- std::source_location, as far as it is used.
pub record SourceLocation : Type 0 where
  pub file_name : Text
  pub line : ℕ

pub record Logger : Type 0 where
  pub log_path : Text

abbrev pub time_format : Text
time_format = codes "%Y-%m-%d %H:%M:%S"

-- `std::filesystem::path::parent_path` on POSIX, from the end of the path: the part before the last
-- run of slashes, the root if that is all.
drop_slashes : Text → Text
drop_slashes [] = []
drop_slashes (c ∷ cs) = if c == b'/' then drop_slashes cs else c ∷ cs

-- `behind` holds what was read since the last slash, last byte first.
before_slash : Text → Text
before_slash [] = []
before_slash (c ∷ cs) = if c == b'/' then c ∷ cs else before_slash cs

reversed : Text → Text → Text
reversed [] done = done
reversed (c ∷ cs) done = reversed cs (c ∷ done)

root_or : Text → Text → Text
root_or [] trimmed = []
root_or (slash ∷ rest) [] = codes "/"
root_or (slash ∷ rest) (c ∷ cs) = reversed (c ∷ cs) []

unfoldable pub parent_path : Text → Text
unfolding drop_slashes before_slash reversed root_or
parent_path path =
    let up_to_slash = before_slash (reversed path []) in
    root_or up_to_slash (drop_slashes up_to_slash)

-- The text that `log` builds, without the end of line.
unfoldable pub format_line : Text → LogLevel → Text → SourceLocation → Text
unfolding level_to_string
format_line time level message location =
    time
    ++ (codes " ["
        ++ (level_to_string level
            ++ (codes "] "
                ++ (message
                    ++ (codes " @ "
                        ++ (location.file_name ++ (codes ":" ++ show_ℕ location.line)))))))

module _ {W : Type 0} (platform : Platform W) where
  open platform use {local_time, write_stdout, create_directories, open_append, write_file}

  unfoldable pub make : Text → Action W Logger
  unfolding parent_path
  make log_path w =
      let parent = parent_path log_path in
      (record { log_path = log_path }, (if is_empty parent then w else create_directories parent w))

  -- The part of `log` under the lock.
  unfoldable pub write_line : Logger → Text → W → W
  write_line logger line w =
      let (is_open, w') = open_append logger.log_path (write_stdout (line ++ codes "\n") w) in
      if is_open then write_file logger.log_path (line ++ codes "\n") w' else w'

  unfoldable pub log : Logger → LogLevel → Text → SourceLocation → W → W
  unfolding write_line format_line
  log logger level message location w =
      let (time, w') = local_time time_format w in
      write_line logger (format_line time level message location) w'

  -- The six shorthands; `trace`, `debug` and `fatal` are not called by the rest of the program.
  abbrev pub log_trace : Logger → Text → SourceLocation → W → W
  log_trace logger = log logger trace

  abbrev pub log_debug : Logger → Text → SourceLocation → W → W
  log_debug logger = log logger debug

  abbrev pub log_info : Logger → Text → SourceLocation → W → W
  log_info logger = log logger info

  abbrev pub log_warning : Logger → Text → SourceLocation → W → W
  log_warning logger = log logger warning

  abbrev pub log_error : Logger → Text → SourceLocation → W → W
  log_error logger = log logger error

  abbrev pub log_fatal : Logger → Text → SourceLocation → W → W
  log_fatal logger = log logger fatal
