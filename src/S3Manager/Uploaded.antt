-- ===== src/S3Manager/Uploaded.antt =====
-- What upload of example/s3_manager.h leaves on S3.
use cs739_cloud_native.Common.{
  ◌++◌, ◌≡◌, ◌≢◌, refl, ◌∙◌, Bool, true, some, List, [], ◌∷◌, In, here, there, In-cons, Text,
  text_eq, text_eq_iff, Bool-cases, inl, inr, arith,
}
use cs739_cloud_native.S3Manager.{
  S3Client, Files, returned, S3Manager, file_names, upload_files, upload,
}
use cs739_cloud_native.S3Manager.Laws.{IsBucket}

pub one_ne_zero : returned 1 ≢ returned 0
one_ne_zero h = ground arith

module _ {ℓ κ} {F : Type ℓ} {S : Type κ} (files : Files F) (client : S3Client S)
    (m : S3Manager) where
  -- An upload that returns 0 has put its first file, and goes on with the others.
  upload_files-cons :
      (key : Text) (keys : List Text) (f : F) (s : S)
      → (upload_files files client m (key ∷ keys) f s).0 ≡ returned 0
      → let outcome = client.put_object m.bucket_name key (files.read_file key f) s in
        (outcome.0 ≡ true)
        × (upload_files files client m (key ∷ keys) f s
            ≡ upload_files files client m keys f outcome.1)
  unfolding upload_files
  upload_files-cons key keys f s h =
      elim (Bool-cases (client.put_object m.bucket_name key (files.read_file key f) s).0) [
        | inl good ↦ (good, rw good refl)
        | inr bad ↦ absurd (one_ne_zero (rw bad at h))
      ]

  module _ (law : IsBucket client) (f : F) (k body : Text)
      (reads : files.read_file k f ≡ some body) where
    put_it :
        (key : Text) (s : S)
        → text_eq key k ≡ true
        → (client.put_object m.bucket_name key (files.read_file key f) s).0 ≡ true
        → law.object
            (client.put_object m.bucket_name key (files.read_file key f) s).1
            m.bucket_name
            k
          ≡ some body
    put_it key s hit good =
        let e : key ≡ k = ground (arith, hit, text_eq_iff key k) in
        let good' = rw (e, reads) at good in
        rw (e, reads) (law.put_same m.bucket_name k body s good')

    upload_files-kept :
        (keys : List Text) (s : S)
        → law.object s m.bucket_name k ≡ some body
        → (upload_files files client m keys f s).0 ≡ returned 0
        → law.object (upload_files files client m keys f s).1 m.bucket_name k ≡ some body
    upload_files-kept [] s held h = unfold upload_files in held
    upload_files-kept (key ∷ keys) s held h =
        let (good, e) = upload_files-cons key keys f s h in
        let held' : law.object (client.put_object m.bucket_name key (files.read_file key f) s).1
              m.bucket_name k
            ≡ some body =
          elim (Bool-cases (text_eq key k)) [
            | inl hit ↦ put_it key s hit good
            | inr miss ↦ law.put_other m.bucket_name key (files.read_file key f) s k miss ∙ held
          ] in
        rw e (upload_files-kept keys _ held' (rw e at h))

    upload_files-stored :
        (keys : List Text) (s : S)
        → In k keys
        → (upload_files files client m keys f s).0 ≡ returned 0
        → law.object (upload_files files client m keys f s).1 m.bucket_name k ≡ some body
    upload_files-stored [] s i h = elim i [ ]
    upload_files-stored (key ∷ keys) s i h =
        let (good, e) = upload_files-cons key keys f s h in
        let h' = rw e at h in
        rw e (elim (In-cons i) [
          | inl hit ↦
              upload_files-kept keys _ (put_it key s (ground (arith, hit, text_eq_iff key k)) good)
                h'
          | inr later ↦ upload_files-stored keys _ later h'
        ])

  -- The names that upload collects are those of the regular files.
  In-file_names :
      (prefix name : Text) (entries : List (Text × Bool))
      → In (name, true) entries
      → In (prefix ++ name) (file_names files prefix entries)
  unfolding file_names
  In-file_names prefix name [] i = elim i [ ]
  In-file_names prefix name (_ ∷ entries) here = here
  In-file_names prefix name ((n, r) ∷ entries) (there i) =
      let rest = In-file_names prefix name entries i in
      elim (Bool-cases r) [ inl e ↦ rw e (there rest) | inr e ↦ rw e rest ]

  pub upload-stored :
      (law : IsBucket client) (f : F) (s : S) (entries : List (Text × Bool)) (name body : Text)
      → files.directory_iterator m.prefix f ≡ some entries
      → In (name, true) entries
      → files.read_file (m.prefix ++ name) f ≡ some body
      → (upload files client m f s).0 ≡ returned 0
      → law.object (upload files client m f s).1 m.bucket_name (m.prefix ++ name) ≡ some body
  unfolding upload
  upload-stored law f s entries name body lists i reads h =
      rw (upload, lists)
        (upload_files-stored law f (m.prefix ++ name) body reads (file_names files m.prefix entries)
          s (In-file_names m.prefix name entries i) (rw (upload, lists) at h))
