-- ===== src/Logger/Tests.antt =====
-- src/Logger/logger.cpp at concrete inputs. The world is what the console shows and what the one
-- file holds, with whether the file can be opened.
use connected_vehicle_platfo.Prelude.{
  ◌≡◌, refl, Bool, true, List, [], ◌∷◌, ◌++◌, pos, Text, codes, show_ℕ,
}
use connected_vehicle_platfo.Platform.{Platform}
use connected_vehicle_platfo.Logger.{
  Logger, info, warning, SourceLocation, parent_path, default_log_path, format_line,
}
use connected_vehicle_platfo.Logger.Mirror.{Outputs, Entry, log_all, lines_of, mirror}

record Files : Type 0 where
  console : Text
  contents : Text

abbrev disk : Bool → Platform Files
disk opens = record {
  steady_now = λ w. (pos 0, w);
  sleep_for = λ ms w. w;
  local_time = λ format w. (codes "2026-01-01", w);
  write_stdout = λ text w. record w { console = w.console ++ text };
  write_stderr = λ text w. w;
  create_directories = λ path w. w;
  open_append = λ path w. (opens, w);
  write_file = λ path text w. record w { contents = w.contents ++ text };
}

abbrev outputs : (opens : Bool) → Outputs (disk opens) default_log_path
outputs opens = record {
  console = λ w. w.console;
  contents = λ w. w.contents;
  console-time = λ format w. refl;
  contents-time = λ format w. refl;
  console-stdout = λ t w. refl;
  contents-stdout = λ t w. refl;
  console-open = λ w. refl;
  contents-open = λ w. refl;
  console-write = λ t w. refl;
  contents-write = λ t w. refl;
}

abbrev logger : Logger
logger = record { log_path = default_log_path }

abbrev empty : Files
empty = record { console = []; contents = [] }

abbrev here : SourceLocation
here = record { file_name = codes "main.cpp"; line = 128 }

abbrev entries : List Entry
entries =
    record { level = info; message = codes "Launching"; location = here }
    ∷ record { level = warning; message = codes "Listener not ready"; location = here }
    ∷ []

parent_test : parent_path default_log_path ≡ codes "logs"
unfolding parent_path
parent_test = refl

no_parent_test : parent_path (codes "vehicle.log") ≡ []
unfolding parent_path
no_parent_test = refl

root_test : parent_path (codes "/vehicle.log") ≡ codes "/"
unfolding parent_path
root_test = refl

line_test :
    format_line (codes "now") info (codes "Launching") here
    ≡ codes "now [INFO] Launching @ main.cpp:128"
unfolding format_line show_ℕ
line_test = refl

mirror_example :
    ((log_all (disk true) logger entries empty).contents
      ≡ [] ++ lines_of (disk true) logger entries empty)
    × ((log_all (disk true) logger entries empty).console
        ≡ [] ++ lines_of (disk true) logger entries empty)
mirror_example = mirror (disk true) logger (outputs true) (λ w. refl) entries empty
