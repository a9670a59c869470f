-- ===== src/StateMachine/File.antt =====
-- The file of the state machine, as src/state_machine.cpp writes and reads it: one line for each
-- key, `key value server@version … `, and the parts of iostream and of std::string that this uses.
use cs739_cloud_native.Common.{
  ℕ, ◌+◌, ◌-◌, ◌*◌, ◌%◌, Bool, true, false, ◌&&◌, ◌||◌, Option, none, some, List, [], ◌∷◌, ◌++◌,
  ltb, leb, ◌==◌, if◌then◌else◌, Text, print_u64, Assoc, insert,
}
use cs739_cloud_native.Versions.{VersionVector, u64, ◌>>=◌}

-- The file `storage_name`: whether it opens for writing, and its bytes if it exists.
pub record Disk : Type 0 where
  pub writable : Bool
  pub bytes : Option Text

-- for (…) file << server << "@" << version << " "
unfoldable pub print_versions : VersionVector → Text
print_versions [] = []
print_versions ((s, n) ∷ v) = s ++ (b'@' ∷ (print_u64 n ++ (b' ' ∷ print_versions v)))

-- the line of one entry
unfoldable pub print_entry : Text → Text → VersionVector → Text
print_entry key value versions =
    key ++ (b' ' ∷ (value ++ (b' ' ∷ (print_versions versions ++ 10 ∷ []))))

-- isspace in the C locale
unfoldable pub is_space : ℕ → Bool
is_space c = c == 32 || leb 9 c && leb c 13

-- The tokens that `iss >> s` yields one after the other; `word` is the one being read.
unfoldable pub tokens : Text → Text → List Text
unfolding is_space
tokens [] [] = []
tokens (w ∷ word) [] = (w ∷ word) ∷ []
tokens [] (c ∷ rest) = elim (is_space c) [ true ↦ tokens [] rest | false ↦ tokens (c ∷ []) rest ]
tokens (w ∷ word) (c ∷ rest) = elim (is_space c) [
  | true ↦ (w ∷ word) ∷ tokens [] rest
  | false ↦ tokens (w ∷ word ++ c ∷ []) rest
]

-- The lines that `getline` yields; a last line with no newline counts if it has a character.
unfoldable pub lines : Text → Text → List Text
lines [] [] = []
lines (l ∷ line) [] = (l ∷ line) ∷ []
lines line (c ∷ rest) = elim (c == 10) [
  | true ↦ line ∷ lines [] rest
  | false ↦ lines (line ++ c ∷ []) rest
]

unfoldable pub is_digit : ℕ → Bool
is_digit c = leb 48 c && leb c 57

-- The digits at the front, as a number.
unfoldable pub read_digits : ℕ → Text → ℕ
unfolding is_digit
read_digits acc [] = acc
read_digits acc (c ∷ rest) = elim (is_digit c) [
  | true ↦ read_digits (acc * 10 + (c - 48)) rest
  | false ↦ acc
]

-- The number at the front of a text with no sign; `none` is std::invalid_argument where there is no
-- digit, and std::out_of_range.
unfoldable pub read_unsigned : Text → Option ℕ
unfolding read_digits
read_unsigned [] = none
read_unsigned (c ∷ rest) =
    let n = read_digits 0 (c ∷ rest) in
    if is_digit c then (if ltb n u64 then some n else none) else none

-- std::stoull on a token, which has no leading space. A minus sign negates modulo 2^64.
unfoldable pub stoull : Text → Option ℕ
unfolding read_unsigned
stoull [] = none
stoull (c ∷ rest) =
    if c == b'+'
    then read_unsigned rest
    else if c == b'-'
    then (do n ← read_unsigned rest; some ((u64 - n) % u64))
    else read_unsigned (c ∷ rest)

-- substr(0, find("@")); with no "@" the position is npos, and this is the whole text
unfoldable pub before_at : Text → Text
before_at [] = []
before_at (c ∷ rest) = if c == b'@' then [] else c ∷ before_at rest

-- substr(find("@") + 1) of what is left, or `whole` where there is no "@": npos + 1 is 0
unfoldable pub after_at : Text → Text → Text
after_at whole [] = whole
after_at whole (c ∷ rest) = if c == b'@' then rest else after_at whole rest

unfoldable pub read_versions : List Text → Option VersionVector
unfolding before_at after_at stoull
read_versions [] = some []
read_versions (t ∷ ts) = do
  version ← stoull (after_at t t)
  rest ← read_versions ts
  some ((before_at t, version) ∷ rest)

-- The two maps while the file is read.
pub record Maps : Type 0 where
  pub values : Assoc Text
  pub versions : Assoc VersionVector

-- One line: key, value (each empty if the line ends before it), and the versions.
unfoldable pub read_line : Maps → List Text → Option Maps
unfolding read_versions
read_line m [] =
    some (record { values = insert [] [] m.values; versions = insert [] [] m.versions })
read_line m (key ∷ []) =
    some (record { values = insert key [] m.values; versions = insert key [] m.versions })
read_line m (key ∷ value ∷ ts) = do
  infos ← read_versions ts
  some (record { values = insert key value m.values; versions = insert key infos m.versions })

unfoldable pub read_lines : Maps → List Text → Option Maps
unfolding read_line tokens
read_lines m [] = some m
read_lines m (l ∷ ls) = do m' ← read_line m (tokens [] l); read_lines m' ls
