-- ===== src/S3Manager.antt =====
-- The directory on S3 of example/s3_manager.h and example/tmp.cpp: s3Manager and
-- ModifyFile. The client of S3 and the local files are parameters.
pub mod Laws
pub mod Uploaded
pub mod RoundTrip
use cs739_cloud_native.Common.{
  ℕ, zero, suc, ◌==◌, ◌++◌, Bool, true, false, Option, none, some, List, [], ◌∷◌, length,
  if◌then◌else◌, Text, text,
}
use cs739_cloud_native.StateMachine.File.{lines}

-- The calls of Aws::S3::S3Client that are used, with the bucket and a prefix or a key, on a state
-- of its own: the keys of ListObjects and the body of GetObject, where these succeed, and whether
-- PutObject does. The body of a request is none where the stream of the file did not open.
pub record S3Client {ℓ} (S : Type ℓ) : Type ℓ where
  pub list_objects : Text → Text → S → Option (List Text) × S
  pub get_object : Text → Text → S → Option Text × S
  pub put_object : Text → Text → Option Text → S → Bool × S

-- The local files, on a state of their own: the names in a directory with `is_regular_file`, where
-- directory_iterator does not throw; what a file holds, where it opens; an ofstream that is written
-- to, and an fstream in append mode. A stream that does not open takes what is written, and does
-- nothing.
pub record Files {ℓ} (F : Type ℓ) : Type ℓ where
  pub directory_iterator : Text → F → Option (List (Text × Bool))
  pub read_file : Text → F → Option Text
  pub write_file : Text → Text → F → F
  pub open_append : Text → F → Option F
  pub append_file : Text → Text → F → F

-- How a call ends: with a value of type int, or with an exception.
pub data Exit : Type 0 where
  returned : ℕ → Exit
  thrown : Exit

abbrev pub data_to_append : Text
data_to_append = text "This is the data to append."

-- Each line, and a newline.
unfoldable pub join_lines : List Text → Text
join_lines [] = []
join_lines (line ∷ rest) = line ++ (10 ∷ join_lines rest)

-- `s.substr(n)`, which throws if `n` is beyond the end.
unfoldable pub substr : Text → ℕ → Option Text
substr s zero = some s
substr [] (suc n) = none
substr (c ∷ s) (suc n) = substr s n

pub record S3Manager : Type 0 where
  pub bucket_name : Text
  pub prefix : Text
  pub region : Text

unfoldable pub new : Text → Text → Text → S3Manager
new bucket_name prefix region = record {
  bucket_name = bucket_name;
  prefix = prefix;
  region = region;
}

module _ {ℓ} {F : Type ℓ} (files : Files F) where
  -- The result, with the file contents that are printed, where the file opens.
  unfoldable pub modify_file : Text → F → (ℕ × Option Text) × F
  unfolding join_lines
  modify_file file_path f = elim (files.open_append file_path f) [
    | none ↦ ((1, none), f)
    | some opened ↦ elim (files.read_file file_path opened) [
      | some bytes ↦ (
        (0, some (join_lines (lines [] bytes))),
        files.append_file file_path data_to_append opened,
      )
      | none ↦ ((0, some []), files.append_file file_path data_to_append opened)
    ]
  ]

  -- The loop of upload over the entries of the directory.
  unfoldable pub file_names : Text → List (Text × Bool) → List Text
  file_names prefix [] = []
  file_names prefix ((filename, is_regular_file) ∷ entries) =
      let rest = file_names prefix entries in
      if is_regular_file then (prefix ++ filename) ∷ rest else rest

  module _ {κ} {S : Type κ} (client : S3Client S) (m : S3Manager) where
    -- The loop of download over the objects that are left.
    unfoldable pub download_objects : List Text → F → S → Exit × (F × S)
    unfolding substr
    download_objects [] f s = (returned 0, (f, s))
    download_objects (key ∷ keys) f s = elim (substr key (length m.prefix)) [
      | none ↦ (thrown, (f, s))
      | some is_dir ↦
          if length is_dir == 0
          then download_objects keys f s
          else (let outcome = client.get_object m.bucket_name key s in
              elim outcome.0 [
                | none ↦ (returned 1, (f, outcome.1))
                | some body ↦ download_objects keys (files.write_file key body f) outcome.1
              ])
    ]

    unfoldable pub download : F → S → Exit × (F × S)
    download f s =
        let outcome = client.list_objects m.bucket_name m.prefix s in
        elim outcome.0 [
          | none ↦ (returned 1, (f, outcome.1))
          | some contents ↦ download_objects contents f outcome.1
        ]

    -- The loop of upload over the files that are left.
    unfoldable pub upload_files : List Text → F → S → Exit × S
    upload_files [] f s = (returned 0, s)
    upload_files (key ∷ keys) f s =
        let outcome = client.put_object m.bucket_name key (files.read_file key f) s in
        let rest = upload_files keys f outcome.1 in
        if outcome.0 then rest else (returned 1, outcome.1)

    unfoldable pub upload : F → S → Exit × S
    unfolding file_names
    upload f s = elim (files.directory_iterator m.prefix f) [
      | none ↦ (thrown, s)
      | some entries ↦ upload_files (file_names m.prefix entries) f s
    ]

  -- `main` of tmp.cpp: the exit code.
  unfoldable pub main {κ} : {S : Type κ} → S3Client S → F → S → ℕ × S
  unfolding new upload
  main client f s =
      let run = upload client (new (text "bucketencoder") (text "test/") (text "us-east-2")) f s in
      (elim run.0 [ thrown ↦ 1 | returned code ↦ 0 ], run.1)
