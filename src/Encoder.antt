-- ===== src/Encoder.antt =====
-- The Lambda function of example/main.cpp that sends an object of S3 in Base64. The client of
-- S3, the parser of JSON and Base64Encode are parameters; the body is a stream of the C++ library.
pub mod Stream
pub mod Answers
use cs739_cloud_native.Common.{
  ℕ, zero, suc, ◌+◌, ◌*◌, ◌/◌, ◌<◌, ◌++◌, ltb, Bool, true, false, not, ◌&&◌, ◌||◌, Option, none,
  some, List, [], ◌∷◌, length, take, if◌then◌else◌, Text, text,
}

abbrev pub drop {ℓ} : {A : Type ℓ} → ℕ → List A → List A
drop zero xs = xs
drop (suc n) [] = []
drop (suc n) (x ∷ xs) = drop n xs

-- A stream: what it holds, the place to read from, that to write to, where there is one, and its
-- flags.
pub record IoStream : Type 0 where
  pub content : Text
  pub position : ℕ
  pub put_position : Option ℕ
  pub eof : Bool
  pub fail : Bool

abbrev pub good : IoStream → Bool
good s = not (s.eof || s.fail)

-- `none` is -1.
unfoldable pub tellp : IoStream → Option ℕ
tellp s = if s.fail then none else s.put_position

-- `seekg(0, beg)` clears eof, and moves where the stream has not failed.
unfoldable pub seekg_beg : IoStream → IoStream
seekg_beg s = if s.fail then record s { eof = false } else record s { eof = false; position = 0 }

-- `read` of at most `n` bytes, with the stream after it; gcount is their number.
unfoldable pub read : ℕ → IoStream → Text × IoStream
read n s =
    if good s
    then (let bytes = take n (drop s.position s.content) in
        let short = ltb (length bytes) n in
        (bytes, record s { position = s.position + length bytes; eof = short; fail = short }))
    else ([], record s { fail = true })

abbrev pub buffer_size : ℕ
buffer_size = 1024 * 4

-- The loop of encode, on fuel: `bits` when it ends.
unfoldable pub read_bits : ℕ → IoStream → Text → Text
unfolding read
read_bits zero s bits = bits
read_bits (suc fuel) s bits =
    let (bytes, s') = read buffer_size s in
    let rest = read_bits fuel s' (bits ++ bytes) in if good s then rest else bits

-- encode: the output. The size that is reserved is too large where tellp gives -1, and `none` is
-- std::length_error.
unfoldable pub encode : (Text → Text) → IoStream → Option Text
unfolding seekg_beg tellp read_bits
encode base64_encode s = elim (tellp s) [
  | none ↦ none
  | some n ↦
      some (base64_encode (read_bits (suc (length s.content / buffer_size)) (seekg_beg s) []))
]

-- The outcome of GetObject: the body, or the message of the error.
pub data GetObjectOutcome : Type 0 where
  result : IoStream → GetObjectOutcome
  error : Text → GetObjectOutcome

pub data InvocationResponse : Type 0 where
  success : Text → Text → InvocationResponse
  failure : Text → Text → InvocationResponse

-- What is used of JsonValue and JsonView: the view, where the text parses; a member that exists,
-- and is a string; and its text.
pub record Json {ℓ} (View : Type ℓ) : Type ℓ where
  pub parse : Text → Option View
  pub value_exists : View → Text → Bool
  pub is_string : View → Text → Bool
  pub get_string : View → Text → Text

module _ {ℓ} {View : Type ℓ} (json : Json View) where
  -- The test of the two members.
  unfoldable pub has_input : View → Bool
  has_input v = not (
      not (json.value_exists v (text "s3bucket"))
      || not (json.value_exists v (text "s3key"))
      || not (json.is_string v (text "s3bucket"))
      || not (json.is_string v (text "s3key")))

module _ {ℓ} {View : Type ℓ} (json : Json View) (base64_encode : Text → Text)
    (get_object : Text → Text → GetObjectOutcome) where
  -- The error that is returned, with the output; `none` where it throws.
  unfoldable pub download_and_encode_file : Text → Text → Option (Text × Text)
  unfolding encode
  download_and_encode_file bucket key = elim (get_object bucket key) [
    | result body ↦ elim (encode base64_encode body) [
      | none ↦ none
      | some encoded_output ↦ some ([], encoded_output)
    ]
    | error message ↦ some (message, [])
  ]

  unfoldable pub my_handler : Text → Option InvocationResponse
  unfolding has_input download_and_encode_file
  my_handler payload = elim (json.parse payload) [
    | none ↦ some (failure (text "Failed to parse input JSON") (text "InvalidJSON"))
    | some v ↦
        if has_input json v
        then (elim (download_and_encode_file (json.get_string v (text "s3bucket"))
            (json.get_string v (text "s3key"))) [
              | none ↦ none
              | some ([], base64_encoded_file) ↦
                  some (success base64_encoded_file (text "application/base64"))
              | some (c ∷ err, base64_encoded_file) ↦
                  some (failure (c ∷ err) (text "DownloadFailure"))
            ])
        else some (failure (text "Missing input value s3bucket or s3key") (text "InvalidJSON"))
  ]
