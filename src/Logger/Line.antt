-- ===== src/Logger/Line.antt =====
-- src/Logger/logger.cpp: the level and the message can be read back from a line.
use connected_vehicle_platfo.Prelude.{
  ◌==◌, ◌≡◌, refl, ap, ◌∙◌, sym, false, [], ◌∷◌, Text, until, after, holds, until-append,
  after-append, if◌then◌else◌,
}
use connected_vehicle_platfo.Logger.{
  LogLevel, trace, debug, info, warning, error, fatal, SourceLocation, level_to_string, format_line,
}

-- The word between the brackets.
abbrev pub read_level : Text → Text
read_level line = until b']' (after b'[' line)

level_unbracketed : (level : LogLevel) → holds b']' (level_to_string level) ≡ false
unfolding holds level_to_string
level_unbracketed trace = refl
level_unbracketed debug = refl
level_unbracketed info = refl
level_unbracketed warning = refl
level_unbracketed error = refl
level_unbracketed fatal = refl

-- Reading goes through a time with no bracket to the level's name.
pub read_level-format_line :
    (time : Text) (level : LogLevel) (message : Text) (location : SourceLocation)
    → holds b'[' time ≡ false
    → read_level (format_line time level message location) ≡ level_to_string level
unfolding format_line after
read_level-format_line time level message location plain =
    ap (until b']') (after-append b'[' time _ plain)
    ∙ until-append b']' (level_to_string level) _ (level_unbracketed level)

-- The levels' names start with different bytes.
level_of_first : Text → LogLevel
level_of_first [] = info
level_of_first (c ∷ cs) =
    if c == b'T'
    then trace
    else if c == b'D'
    then debug
    else if c == b'I'
    then info
    else if c == b'W'
    then warning
    else if c == b'E'
    then error
    else fatal

level_of_first-level_to_string : (level : LogLevel) → level_of_first (level_to_string level) ≡ level
unfolding level_of_first level_to_string
level_of_first-level_to_string trace = refl
level_of_first-level_to_string debug = refl
level_of_first-level_to_string info = refl
level_of_first-level_to_string warning = refl
level_of_first-level_to_string error = refl
level_of_first-level_to_string fatal = refl

-- Two equal lines of the log have the same level, if no time stamp in them has a bracket.
pub format_line-level :
    (time time' : Text) (level level' : LogLevel) (message message' : Text)
    (location location' : SourceLocation)
    → holds b'[' time ≡ false
    → holds b'[' time' ≡ false
    → format_line time level message location ≡ format_line time' level' message' location'
    → level ≡ level'
format_line-level time time' level level' message message' location location' plain plain' same =
    sym (level_of_first-level_to_string level)
    ∙ ap level_of_first (
        sym (read_level-format_line time level message location plain)
        ∙ ap read_level same
        ∙ read_level-format_line time' level' message' location' plain')
    ∙ level_of_first-level_to_string level'
