-- ===== src/TelemetryManager/Sample/Json.antt =====
-- src/TelemetryManager/telemetry_manager.cpp: what a reader of JSON gets from the text of a sample.
use connected_vehicle_platfo.Prelude.{
  ℕ, zero, suc, is_empty, ◌==◌, ltb, ◌≡◌, refl, ap, true, false, Bool, not, ◌&&◌, ◌||◌, Option,
  none, some, List, [], ◌∷◌, ◌++◌, append_assoc, Text, codes, if◌then◌else◌, arith,
}
use connected_vehicle_platfo.TelemetryManager.Sample.{
  Doubles, TelemetrySample, measurements, serialize,
}

-- A reader of a flat JSON object, as RFC 8259 writes one without white space. The characters of a
-- string are read up to its closing quote; a string with an escape sequence or a control character is
-- not read. A number is left as its text.
pub data Value : Type 0 where
  string : Text → Value
  number : Text → Value

-- A character that stands for itself in a string.
abbrev pub is_plain : ℕ → Bool
is_plain c = not (ltb c 0x20) && not (c == b'"') && not (c == b'\\')

infixl 5 ◌>>=◌
abbrev ◌>>=◌ : {A B : Type 0} → Option A → (A → Option B) → Option B
none >>= f = none
some a >>= f = f a

-- The rest of a string, and what is behind it.
read_chars : Text → Option (Text × Text)
read_chars [] = none
read_chars (c ∷ cs) =
    let rest = read_chars cs in
    if c == b'"'
    then some ([], cs)
    else if is_plain c
    then (do (s, behind) ← rest; some (c ∷ s, behind))
    else none

-- The text of a number, up to the comma or the brace behind it.
read_number : Text → Text × Text
read_number [] = ([], [])
read_number (c ∷ cs) =
    let (n, behind) = read_number cs in
    if c == b',' || c == b'}' then ([], c ∷ cs) else (c ∷ n, behind)

-- The text behind a character that has to stand there.
abbrev expect : ℕ → Text → Option Text
expect stop [] = none
expect stop (c ∷ cs) = if c == stop then some cs else none

abbrev as_string : Option (Text × Text) → Option (Value × Text)
as_string none = none
as_string (some (s, behind)) = some (string s, behind)

abbrev as_number : Text × Text → Option (Value × Text)
as_number (n, behind) = some (number n, behind)

read_value : Text → Option (Value × Text)
read_value [] = none
read_value (c ∷ cs) =
    if c == b'"' then as_string (read_chars cs) else as_number (read_number (c ∷ cs))

-- A name and its value.
read_member : Text → Option ((Text × Value) × Text)
read_member text = do
  at_name ← expect b'"' text
  (name, at_colon) ← read_chars at_name
  at_value ← expect b':' at_colon
  (value, behind) ← read_value at_value
  some ((name, value), behind)

-- What follows a member: the closing brace and the end of the text, or a comma and more members.
abbrev read_on :
    Text × Value → (Text → Option (List (Text × Value))) → Text → Option (List (Text × Value))
read_on first again [] = none
read_on first again (c ∷ cs) =
    if c == b'}'
    then (if is_empty cs then some (first ∷ []) else none)
    else if c == b','
    then again cs >>= (λ others. some (first ∷ others))
    else none

read_members : ℕ → Text → Option (List (Text × Value))
read_members zero text = none
read_members (suc limit) text = read_member text >>= (λ m. read_on m.0 (read_members limit) m.1)

-- An object of at most `limit` members, of which there is one.
pub read_object : ℕ → Text → Option (List (Text × Value))
read_object limit text = expect b'{' text >>= read_members limit

-- What a string and a number consist of for this reader.
unfoldable pub all_plain : Text → Bool
all_plain [] = true
all_plain (c ∷ cs) = is_plain c && all_plain cs

abbrev is_numeric : ℕ → Bool
is_numeric c = not (c == b',') && not (c == b'}') && not (c == b'"')

unfoldable pub all_numeric : Text → Bool
all_numeric [] = true
all_numeric (c ∷ cs) = is_numeric c && all_numeric cs

read_chars-append :
    (s rest : Text) → all_plain s ≡ true → read_chars (s ++ b'"' ∷ rest) ≡ some (s, rest)
unfolding read_chars all_plain
read_chars-append [] rest h = refl
read_chars-append (c ∷ cs) rest h =
    let tail : all_plain cs ≡ true = ground arith in
    let plain : is_plain c ≡ true = ground arith in
    let no_quote : (c == b'"') ≡ false = ground arith in
    rw (plain, no_quote, read_chars-append cs rest tail) refl

read_number-append :
    (n : Text) (c : ℕ) (rest : Text)
    → (c == b',' || c == b'}') ≡ true
    → all_numeric n ≡ true
    → read_number (n ++ c ∷ rest) ≡ (n, c ∷ rest)
unfolding read_number all_numeric
read_number-append [] c rest stops h = ground arith
read_number-append (d ∷ ds) c rest stops h =
    let tail : all_numeric ds ≡ true = ground arith in
    let inside : (d == b',' || d == b'}') ≡ false = ground arith in
    rw (inside, read_number-append ds c rest stops tail) refl

read_value-string :
    (s rest : Text)
    → all_plain s ≡ true
    → read_value (b'"' ∷ (s ++ b'"' ∷ rest)) ≡ some (string s, rest)
unfolding read_value
read_value-string s rest h = rw (read_chars-append s rest h) refl

read_value-number :
    (n : Text) (c : ℕ) (rest : Text)
    → (c == b',' || c == b'}') ≡ true
    → all_numeric n ≡ true
    → read_value (n ++ c ∷ rest) ≡ some (number n, c ∷ rest)
unfolding read_value all_numeric
read_value-number [] c rest stops h =
    let no_quote : (c == b'"') ≡ false = ground arith in
    rw (no_quote, read_number-append [] c rest stops h) refl
read_value-number (d ∷ ds) c rest stops h =
    let no_quote : (d == b'"') ≡ false = ground arith in
    rw (no_quote, read_number-append (d ∷ ds) c rest stops h) refl

read_member-value :
    (name text : Text)
    → all_plain name ≡ true
    → read_member (b'"' ∷ (name ++ b'"' ∷ b':' ∷ text))
      ≡ (read_value text >>= (λ v. some ((name, v.0), v.1)))
unfolding read_member
read_member-value name text h = rw (read_chars-append name (b':' ∷ text) h) refl

-- A member that is followed by other ones, and the last one.
read_members-more :
    (limit : ℕ) (name text rest : Text) (value : Value) (others : List (Text × Value))
    → all_plain name ≡ true
    → read_value text ≡ some (value, b',' ∷ rest)
    → read_members limit rest ≡ some others
    → read_members (suc limit) (b'"' ∷ (name ++ b'"' ∷ b':' ∷ text)) ≡ some ((name, value) ∷ others)
unfolding read_members
read_members-more limit name text rest value others plain reads more =
    rw (read_member-value name text plain) (rw reads (rw more refl))

read_members-last :
    (limit : ℕ) (name text : Text) (value : Value)
    → all_plain name ≡ true
    → read_value text ≡ some (value, b'}' ∷ [])
    → read_members (suc limit) (b'"' ∷ (name ++ b'"' ∷ b':' ∷ text)) ≡ some ((name, value) ∷ [])
unfolding read_members
read_members-last limit name text value plain reads =
    rw (read_member-value name text plain) (rw reads refl)

module _ {D : Type 0} (doubles : Doubles D) where
  open doubles use {print}

  -- The texts of a sample need no escape, and its numbers are printed without a comma, a brace or a
  -- quotation mark.
  pub record IsReadable (s : TelemetrySample D) : Type 0 where
    pub vehicle_id : all_plain s.vehicle_id ≡ true
    pub timestamp : all_plain s.timestamp ≡ true
    pub speed : all_numeric (print s.speed) ≡ true
    pub rpm : all_numeric (print s.rpm) ≡ true
    pub battery : all_numeric (print s.battery) ≡ true
    pub fuel : all_numeric (print s.fuel) ≡ true

  -- The members of a sample's object.
  abbrev pub members_of : TelemetrySample D → List (Text × Value)
  members_of s =
      (codes "vehicle_id", string s.vehicle_id)
      ∷ (codes "timestamp", string s.timestamp)
      ∷ (codes "speed", number (print s.speed))
      ∷ (codes "rpm", number (print s.rpm))
      ∷ (codes "battery", number (print s.battery))
      ∷ (codes "fuel", number (print s.fuel))
      ∷ []

  -- Where the texts of a sample have no quotation mark, backslash or control character, and its
  -- numbers are printed without comma, brace and quotation mark, a reader of flat JSON objects
  -- finds in the text of the sample exactly six members, in order, under the names vehicle_id,
  -- timestamp, speed, rpm, battery and fuel: the two strings, and the four numbers as they are
  -- printed.
  pub read-serialize :
      (s : TelemetrySample D)
      → IsReadable s
      → read_object 6 (serialize doubles s) ≡ some (members_of s)
  unfolding serialize measurements read_object all_plain
  read-serialize s h =
      read_members-more 5 (codes "vehicle_id") _ _ _ _ refl
        (read_value-string s.vehicle_id _ h.vehicle_id)
        (read_members-more 4 (codes "timestamp") _ _ _ _ refl
          (read_value-string s.timestamp _ h.timestamp)
          (read_members-more 3 (codes "speed") _ _ _ _ refl
            (read_value-number (print s.speed) b',' _ refl h.speed)
            (read_members-more 2 (codes "rpm") _ _ _ _ refl
              (read_value-number (print s.rpm) b',' _ refl h.rpm)
              (read_members-more 1 (codes "battery") _ _ _ _ refl
                (read_value-number (print s.battery) b',' _ refl h.battery)
                (read_members-last 0 (codes "fuel") _ _ refl
                  (read_value-number (print s.fuel) b'}' _ refl h.fuel))))))

  -- Nothing is escaped in the JSON text of a sample: an id that holds the separator of the two text
  -- fields gives the same text as the shorter id with the longer timestamp.
  serialize_ambiguous :
      (a b c : Text) (s : TelemetrySample D)
      → let label = codes "\",\"timestamp\":\"" in
        serialize doubles (record s { vehicle_id = a ++ (label ++ b); timestamp = c })
        ≡ serialize doubles (record s { vehicle_id = a; timestamp = b ++ (label ++ c) })
  unfolding serialize
  serialize_ambiguous a b c s =
      ap (λ (t : Text). codes "{\"vehicle_id\":\"" ++ t) (simp append_assoc)
