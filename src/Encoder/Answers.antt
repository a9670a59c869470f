-- ===== src/Encoder/Answers.antt =====
-- What the Lambda function of example/main.cpp answers.
use cs739_cloud_native.Common.{
  ℕ, true, some, [], ◌∷◌, Text, text, ◌≡◌, ◌↔◌, ◌⊎◌, inl, inr, refl, sym, ap, ◌∙◌, Bool-cases,
  Option-cases, arith,
}
use cs739_cloud_native.Encoder.{
  IoStream, tellp, GetObjectOutcome, result, error, success, Json, download_and_encode_file,
  has_input, my_handler,
}
use cs739_cloud_native.Encoder.Stream.{encode_lem, encode_lost}

empty-cases : (t : Text) → (t ≡ []) ⊎ ((c : ℕ) × (rest : Text) × (t ≡ c ∷ rest))
empty-cases [] = inl refl
empty-cases (c ∷ rest) = inr (c, rest, refl)

outcome-cases :
    (o : GetObjectOutcome)
    → ((s : IoStream) × (o ≡ result s)) ⊎ ((message : Text) × (o ≡ error message))
outcome-cases (result s) = inl (s, refl)
outcome-cases (error message) = inr (message, refl)

-- What is encoded: the whole body that GetObject gives; or nothing, where the message of its error
-- is empty.
abbrev pub Encoded : (Text → Text) → GetObjectOutcome → Text → Type 0
Encoded base64_encode outcome output =
    ((s : IoStream) × (n : ℕ) × (outcome ≡ result s)
      × (tellp s ≡ some n)
      × (output ≡ base64_encode s.content))
    ⊎ ((outcome ≡ error []) × (output ≡ []))

module _ {ℓ} {View : Type ℓ} (json : Json View) where
  -- The request parses, and names a bucket and a key as strings.
  abbrev pub Asks : Text → View → Type ℓ
  Asks payload v =
      (json.parse payload ≡ some v)
      × (json.value_exists v (text "s3bucket") ≡ true)
      × (json.value_exists v (text "s3key") ≡ true)
      × (json.is_string v (text "s3bucket") ≡ true)
      × (json.is_string v (text "s3key") ≡ true)

  asked :
      (payload : Text) (v : View)
      → json.parse payload ≡ some v
      → has_input json v ≡ true
      → Asks payload v
  unfolding has_input
  asked payload v e has =
      (e, ground (arith, has), ground (arith, has), ground (arith, has), ground (arith, has))

module _ {ℓ} {View : Type ℓ} (json : Json View) (base64_encode : Text → Text)
    (get_object : Text → Text → GetObjectOutcome) where
  download_and_encode_file-Encoded :
      (bucket key output : Text)
      → download_and_encode_file json base64_encode get_object bucket key ≡ some ([], output)
      → Encoded base64_encode (get_object bucket key) output
  unfolding download_and_encode_file
  download_and_encode_file-Encoded bucket key output h =
      elim (outcome-cases (get_object bucket key)) [
        | inl (s, e) ↦ elim (Option-cases (tellp s)) [
          | inl lost ↦ absurd (
              let f = rw (download_and_encode_file, e, encode_lost base64_encode s lost) at h in
              ground (arith, f))
          | inr (n, there) ↦ inl (
            s,
            n,
            e,
            there,
            let f = rw (download_and_encode_file, e, encode_lem base64_encode s n there) at h in
                ground (arith, f),
          )
        ]
        | inr (message, e) ↦
            let f = rw (download_and_encode_file, e) at h in
            let (empty, q) : (message ≡ []) × (output ≡ []) = ground (arith, f) in
            inr (e ∙ ap error empty, q)
      ]

  Encoded-download_and_encode_file :
      (bucket key output : Text)
      → Encoded base64_encode (get_object bucket key) output
      → download_and_encode_file json base64_encode get_object bucket key ≡ some ([], output)
  unfolding download_and_encode_file
  Encoded-download_and_encode_file bucket key output (inl (s, n, e, there, q)) =
      rw (download_and_encode_file, e, encode_lem base64_encode s n there, q) refl
  Encoded-download_and_encode_file bucket key output (inr (e, q)) =
      rw (download_and_encode_file, e, q) refl

  my_handler-Encoded :
      (payload body content_type : Text)
      → my_handler json base64_encode get_object payload ≡ some (success body content_type)
      → (v : View) × Asks json payload v
        × Encoded base64_encode
            (get_object (json.get_string v (text "s3bucket")) (json.get_string v (text "s3key")))
            body
        × (content_type ≡ text "application/base64")
  unfolding my_handler
  my_handler-Encoded payload body content_type h = elim (Option-cases (json.parse payload)) [
    | inl wrong ↦ absurd (let f = rw (my_handler, wrong) at h in ground (arith, f))
    | inr (v, e) ↦ elim (Bool-cases (has_input json v)) [
      | inr lacks ↦ absurd (let f = rw (my_handler, e, lacks) at h in ground (arith, f))
      | inl has ↦
          let f = rw (my_handler, e, has) at h in
          let bucket = json.get_string v (text "s3bucket") in
          let key = json.get_string v (text "s3key") in
          elim (Option-cases (download_and_encode_file json base64_encode get_object bucket key)) [
            | inl threw ↦ absurd (let g = rw threw at f in ground (arith, g))
            | inr (answer, d) ↦ elim (empty-cases answer.0) [
              | inl clean ↦
                  let d' = d ∙ ap (λ t. some (t, answer.1)) clean in
                  let g = rw d' at f in
                  let (q, kind) : (answer.1 ≡ body) × (text "application/base64" ≡ content_type) =
                    ground (arith, g) in
                  (
                    v,
                    asked json payload v e has,
                    download_and_encode_file-Encoded _ _ body (d' ∙ ap (λ t. some ([], t)) q),
                    sym kind,
                  )
              | inr (c, rest, bad) ↦
                  let d' = d ∙ ap (λ t. some (t, answer.1)) bad in
                  absurd (let g = rw d' at f in ground (arith, g))
            ]
          ]
    ]
  ]

  -- The function answers with a success exactly where three things hold. The request parses, and
  -- names a bucket and a key as strings. The response is Base64 of the whole body that GetObject
  -- gives, a stream that can tell its place to write to; or it is empty, and GetObject failed with
  -- an empty message. The content type is application/base64.
  pub my_handler_iff :
      (payload body content_type : Text)
      → (my_handler json base64_encode get_object payload ≡ some (success body content_type)) ↔ (
          (v : View) × Asks json payload v
          × Encoded base64_encode
              (get_object (json.get_string v (text "s3bucket")) (json.get_string v (text "s3key")))
              body
          × (content_type ≡ text "application/base64"))
  unfolding my_handler
  my_handler_iff payload body content_type = (
    my_handler-Encoded payload body content_type,
    λ (v, asks, encoded, q).
        let has : has_input json v ≡ true = unfold has_input in ground (arith, asks) in
        let d =
          Encoded-download_and_encode_file (json.get_string v (text "s3bucket"))
            (json.get_string v (text "s3key")) body encoded in
        rw (my_handler, asks.0, has, d, q) refl,
  )
