-- ===== src/S3Manager/RoundTrip.antt =====
-- A download of example/s3_manager.h after an upload.
use cs739_cloud_native.Common.{
  ◌==◌, ◌++◌, ◌≡◌, ◌≢◌, refl, sym, ap, ◌∙◌, Bool, true, some, List, [], ◌∷◌, In, In-cons, length,
  Text, text_eq, text_eq_iff, Bool-cases, Option-cases, ◌⊎◌, inl, inr, arith,
}
use cs739_cloud_native.S3Manager.{
  S3Client, Files, returned, thrown, S3Manager, substr, download_objects, upload, download,
}
use cs739_cloud_native.S3Manager.Laws.{IsBucket, AreWritable}
use cs739_cloud_native.S3Manager.Uploaded.{one_ne_zero, upload-stored}

thrown_ne_zero : thrown ≢ returned 0
thrown_ne_zero h = ground arith

nothing : (t : Text) → (length t == 0) ≡ true → t ≡ []
nothing [] h = refl
nothing (c ∷ t) h = absurd (ground arith)

-- What follows the prefix of a key is its name.
inside :
    (name : Text) → name ≢ [] → (prefix : Text) → substr (prefix ++ name) (length prefix) ≢ some []
unfolding substr
inside name named [] = λ e. named (ground (arith, e))
inside name named (c ∷ prefix) = inside name named prefix

module _ {ℓ κ} {F : Type ℓ} {S : Type κ} (files : Files F) (client : S3Client S)
    (m : S3Manager) where
  -- A download that returns 0 has passed over its first object, as the directory itself, or has
  -- written it to the local file, and goes on with the others.
  download_objects-cons :
      (key : Text) (keys : List Text) (f : F) (s : S)
      → (download_objects files client m (key ∷ keys) f s).0 ≡ returned 0
      → let outcome = client.get_object m.bucket_name key s in
        (is_dir : Text) × (substr key (length m.prefix) ≡ some is_dir)
        × (((is_dir ≡ [])
              × (download_objects files client m (key ∷ keys) f s
                  ≡ download_objects files client m keys f s))
            ⊎ ((body : Text) × (outcome.0 ≡ some body)
                × (download_objects files client m (key ∷ keys) f s
                    ≡ download_objects files client m keys
                        (files.write_file key body f)
                        outcome.1)))
  unfolding download_objects
  download_objects-cons key keys f s h = elim (Option-cases (substr key (length m.prefix))) [
    | inl short ↦ absurd (thrown_ne_zero (rw (download_objects, short) at h))
    | inr (is_dir, rest) ↦ elim (Bool-cases (length is_dir == 0)) [
      | inl dir ↦ (is_dir, rest, inl (nothing is_dir dir, rw (download_objects, rest, dir) refl))
      | inr file ↦ elim (Option-cases (client.get_object m.bucket_name key s).0) [
        | inl fails ↦ absurd (one_ne_zero (rw (download_objects, rest, file, fails) at h))
        | inr (body, gets) ↦
            (is_dir, rest, inr (body, gets, rw (download_objects, rest, file, gets) refl))
      ]
    ]
  ]

  module _ (law : IsBucket client) (writable : AreWritable files) (k body : Text) where
    -- The object is written to its file, where it is the one that is downloaded.
    write_it :
        (key got : Text) (f : F) (s : S)
        → law.object s m.bucket_name k ≡ some body
        → text_eq key k ≡ true
        → (client.get_object m.bucket_name key s).0 ≡ some got
        → files.read_file k (files.write_file key got f) ≡ some body
    write_it key got f s held hit gets =
        let e : key ≡ k = ground (arith, hit, text_eq_iff key k) in
        let got_it = law.get_same m.bucket_name k got s (rw e at gets) in
        rw e (writable.write_same k got f ∙ (sym got_it ∙ held))

    download_objects-kept :
        (keys : List Text) (f : F) (s : S)
        → law.object s m.bucket_name k ≡ some body
        → files.read_file k f ≡ some body
        → (download_objects files client m keys f s).0 ≡ returned 0
        → files.read_file k (download_objects files client m keys f s).1.0 ≡ some body
    download_objects-kept [] f s held reads h = unfold download_objects in reads
    download_objects-kept (key ∷ keys) f s held reads h =
        elim (download_objects-cons key keys f s h).2 [
          | inl (_, e) ↦ rw e (download_objects-kept keys f s held reads (rw e at h))
          | inr (got, gets, e) ↦
              let now : files.read_file k (files.write_file key got f) ≡ some body =
                elim (Bool-cases (text_eq key k)) [
                  | inl hit ↦ write_it key got f s held hit gets
                  | inr miss ↦ writable.write_other key got f k miss ∙ reads
                ] in
              rw e (
                download_objects-kept keys _ _ (law.get_other m.bucket_name key s k ∙ held) now
                  (rw e at h))
        ]

    download_objects-written :
        (keys : List Text) (f : F) (s : S)
        → In k keys
        → substr k (length m.prefix) ≢ some []
        → law.object s m.bucket_name k ≡ some body
        → (download_objects files client m keys f s).0 ≡ returned 0
        → files.read_file k (download_objects files client m keys f s).1.0 ≡ some body
    download_objects-written [] f s i inside held h = elim i [ ]
    download_objects-written (key ∷ keys) f s i inside held h =
        let (is_dir, rest, step) = download_objects-cons key keys f s h in
        elim step [
          | inl (empty, e) ↦ elim (In-cons i) [
            | inl hit ↦
                absurd (inside (ap (λ x. substr x (length m.prefix)) hit ∙ (rest ∙ ap some empty)))
            | inr later ↦ rw e (download_objects-written keys f s later inside held (rw e at h))
          ]
          | inr (got, gets, e) ↦
              let held' = law.get_other m.bucket_name key s k ∙ held in
              elim (In-cons i) [
                | inl hit ↦
                    let now =
                      write_it key got f s held (ground (arith, hit, text_eq_iff key k)) gets in
                    rw e (download_objects-kept keys _ _ held' now (rw e at h))
                | inr later ↦
                    rw e (download_objects-written keys _ _ later inside held' (rw e at h))
              ]
        ]

  -- An upload from one directory that returns 0, and then a download that returns 0: every regular
  -- file of the directory, with a name, whose object ListObjects names, has in the local files of
  -- the download what it had in those of the upload. PutObject replaces the object, GetObject gives
  -- it, no call changes another object, and every file of the download can be written.
  pub download-upload :
      (law : IsBucket client) (writable : AreWritable files) (f g : F) (s : S)
      → (entries : List (Text × Bool)) (contents : List Text) (name body : Text)
      → files.directory_iterator m.prefix f ≡ some entries
      → In (name, true) entries
      → name ≢ []
      → files.read_file (m.prefix ++ name) f ≡ some body
      → (upload files client m f s).0 ≡ returned 0
      → let s1 = (upload files client m f s).1 in
        (client.list_objects m.bucket_name m.prefix s1).0 ≡ some contents
        → In (m.prefix ++ name) contents
        → (download files client m g s1).0 ≡ returned 0
        → files.read_file (m.prefix ++ name) (download files client m g s1).1.0 ≡ some body
  unfolding download
  download-upload law writable f g s entries contents name body lists i named reads up found listed
        down =
      let s1 = (upload files client m f s).1 in
      let k = m.prefix ++ name in
      let held = upload-stored files client m law f s entries name body lists i reads up in
      rw (download, found)
        (download_objects-written law writable k body contents g _ listed
          (inside name named m.prefix) (law.list_other m.bucket_name m.prefix s1 k ∙ held)
          (rw (download, found) at down))
