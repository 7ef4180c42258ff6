-- ===== src/Logger/Mirror.antt =====
-- src/Logger/logger.cpp: what a run of `log` leaves on the console and in the file.
use connected_vehicle_platfo.Prelude.{
  ◌≡◌, refl, sym, ap, ◌∙◌, false, true, List, [], ◌∷◌, ◌++◌, append-nil, append_assoc, Text, codes,
  Bool-cases, inl, inr,
}
use connected_vehicle_platfo.Platform.{Platform}
use connected_vehicle_platfo.Logger.{
  Logger, LogLevel, SourceLocation, time_format, format_line, log, write_line,
}

-- What the console shows and what a file holds, as the C++ library documents the calls: printing
-- adds to the console, writing to a stream in mode app adds to the file, and asking for the time
-- or opening the stream adds to neither.
pub record Outputs {W : Type 0} (platform : Platform W) (path : Text) : Type 0 where
  pub console : W → Text
  pub contents : W → Text
  pub console-time : (format : Text) (w : W) → console (platform.local_time format w).1 ≡ console w
  pub contents-time :
      (format : Text) (w : W) → contents (platform.local_time format w).1 ≡ contents w
  pub console-stdout : (t : Text) (w : W) → console (platform.write_stdout t w) ≡ console w ++ t
  pub contents-stdout : (t : Text) (w : W) → contents (platform.write_stdout t w) ≡ contents w
  pub console-open : (w : W) → console (platform.open_append path w).1 ≡ console w
  pub contents-open : (w : W) → contents (platform.open_append path w).1 ≡ contents w
  pub console-write : (t : Text) (w : W) → console (platform.write_file path t w) ≡ console w
  pub contents-write :
      (t : Text) (w : W) → contents (platform.write_file path t w) ≡ contents w ++ t

pub record Entry : Type 0 where
  pub level : LogLevel
  pub message : Text
  pub location : SourceLocation

module _ {W : Type 0} (platform : Platform W) (logger : Logger) where
  open platform use {local_time, open_append}

  abbrev pub log_entry : Entry → W → W
  log_entry e w = log platform logger e.level e.message e.location w

  unfoldable pub log_all : List Entry → W → W
  log_all [] w = w
  log_all (e ∷ rest) w = log_all rest (log_entry e w)

  -- The lines of the entries, each at its own time and with an end of line.
  unfoldable pub lines_of : List Entry → W → Text
  lines_of [] w = []
  lines_of (e ∷ rest) w =
      (format_line (local_time time_format w).0 e.level e.message e.location ++ codes "\n")
      ++ lines_of rest (log_entry e w)

  module _ (out : Outputs platform logger.log_path) where
    open out use {console, contents}

    abbrev ended : Text → Text
    ended line = line ++ codes "\n"

    abbrev printed : Text → W → W
    printed line w = platform.write_stdout (ended line) w

    console-write_line :
        (line : Text) (w : W)
        → console (write_line platform logger line w) ≡ console w ++ ended line
    unfolding write_line
    console-write_line line w =
        let w1 = printed line w in
        let (is_open, w2) = open_append logger.log_path w1 in
        let shown = out.console-open w1 ∙ out.console-stdout (ended line) w in
        elim (Bool-cases is_open) [
          | inl opened ↦ rw opened (out.console-write (ended line) w2 ∙ shown)
          | inr closed ↦ rw closed shown
        ]

    console-log :
        (e : Entry) (w : W)
        → console (log_entry e w)
          ≡ console w
            ++ ended (format_line (local_time time_format w).0 e.level e.message e.location)
    unfolding log
    console-log e w =
        let (time, w1) = local_time time_format w in
        console-write_line (format_line time e.level e.message e.location) w1
        ∙ ap (λ (t : Text). t ++ ended (format_line time e.level e.message e.location))
            (out.console-time time_format w)

    -- Every line of every entry reaches the console, in order, whether or not the file opens.
    pub console-log_all :
        (entries : List Entry) (w : W)
        → console (log_all entries w) ≡ console w ++ lines_of entries w
    unfolding log_all lines_of
    console-log_all [] w = sym (append-nil (console w))
    console-log_all (e ∷ rest) w =
        console-log_all rest (log_entry e w)
        ∙ ap (λ (t : Text). t ++ lines_of rest (log_entry e w)) (console-log e w)
        ∙ append_assoc (console w) _ _

    module _ (opens : (w : W) → (open_append logger.log_path w).0 ≡ true) where
      contents-log :
          (e : Entry) (w : W)
          → contents (log_entry e w)
            ≡ contents w
              ++ ended (format_line (local_time time_format w).0 e.level e.message e.location)
      unfolding log write_line
      contents-log e w =
          let (time, w1) = local_time time_format w in
          let line = format_line time e.level e.message e.location in
          let w2 = printed line w1 in
          rw (opens w2) (
            out.contents-write (ended line) (open_append logger.log_path w2).1
            ∙ ap (λ (t : Text). t ++ ended line)
                (out.contents-open w2
                  ∙ out.contents-stdout (ended line) w1
                  ∙ out.contents-time time_format w))

      -- If the log file opens each time, it gets the same lines as the console, in the same order,
      -- for any sequence of log calls; printing and writing add to their outputs as the C++ library
      -- documents them.
      pub mirror :
          (entries : List Entry) (w : W)
          → (contents (log_all entries w) ≡ contents w ++ lines_of entries w)
            × (console (log_all entries w) ≡ console w ++ lines_of entries w)
      unfolding log_all lines_of
      mirror [] w = (sym (append-nil (contents w)), sym (append-nil (console w)))
      mirror (e ∷ rest) w = (
        (mirror rest (log_entry e w)).0
            ∙ ap (λ (t : Text). t ++ lines_of rest (log_entry e w)) (contents-log e w)
            ∙ append_assoc (contents w) _ _,
        console-log_all (e ∷ rest) w,
      )

    module _ (never : (w : W) → (open_append logger.log_path w).0 ≡ false) where
      -- If the log file never opens, it stays as it was, and the console still gets every line.
      pub log_all-unopened :
          (entries : List Entry) (w : W)
          → (contents (log_all entries w) ≡ contents w)
            × (console (log_all entries w) ≡ console w ++ lines_of entries w)
      unfolding log_all log write_line
      log_all-unopened [] w = (refl, console-log_all [] w)
      log_all-unopened (e ∷ rest) w =
          let (time, w1) = local_time time_format w in
          let w2 = printed (format_line time e.level e.message e.location) w1 in
          (
            (log_all-unopened rest (log_entry e w)).0
                ∙ rw (never w2) (
                    out.contents-open w2
                    ∙ out.contents-stdout _ w1
                    ∙ out.contents-time time_format w),
            console-log_all (e ∷ rest) w,
          )
