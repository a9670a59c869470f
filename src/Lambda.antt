-- ===== src/Lambda.antt =====
-- The store on S3 and the handler of a Lambda function: s3_related/key_value_storage.cpp and
-- s3_related/lambda_function_handler.cpp. The client of S3 and the parser of JSON are
-- parameters.
pub mod Runtime
use cs739_cloud_native.Common.{Bool, Option, none, some, [], if◌then◌else◌, Text, text, text_eq}

-- The calls of Aws::S3::S3Client that are used, on a state of its own: whether PutObject and
-- DeleteObject succeed, and the body that GetObject gives where it does.
pub record S3 {ℓ} (S : Type ℓ) : Type ℓ where
  pub put_object : Text → Text → Text → S → Bool × S
  pub get_object : Text → Text → S → Option Text × S
  pub delete_object : Text → Text → S → Bool × S

abbrev pub bucket_name : Text
bucket_name = text "my-key-value-bucket"

module _ {ℓ} {S : Type ℓ} (client : S3 S) where
  unfoldable pub insert : Text → Text → S → Bool × S
  insert key value s = client.put_object bucket_name key value s

  unfoldable pub get : Text → S → Text × S
  get key s =
      let (outcome, s') = client.get_object bucket_name key s in
      (elim outcome [ some result ↦ result | none ↦ [] ], s')

  unfoldable pub update : Text → Text → S → Bool × S
  unfolding insert
  update key value s = insert key value s

  unfoldable pub remove : Text → S → Bool × S
  remove key s = client.delete_object bucket_name key s

  abbrev report : Bool × S → Text → Text → Text × S
  report one good bad = (if one.0 then good else bad, one.1)

  -- `get_string event name` is GetString of the parsed event.
  unfoldable pub handle_event : (Text → Text → Text) → Text → S → Text × S
  unfolding insert get update remove
  handle_event get_string event s =
      let action = get_string event (text "action") in
      let key = get_string event (text "key") in
      let value = get_string event (text "value") in
      if text_eq action (text "insert")
      then report (insert key value s) (text "Insertion successful.") (text "Insertion failed.")
      else if text_eq action (text "get")
      then get key s
      else if text_eq action (text "update")
      then report (update key value s) (text "Update successful.") (text "Update failed.")
      else if text_eq action (text "remove")
      then report (remove key s) (text "Deletion successful.") (text "Deletion failed.")
      else (text "Invalid action.", s)
