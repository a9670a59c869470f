-- ===== src/S3Manager/Laws.antt =====
-- What example/s3_manager.h relies on: the objects of a bucket, and local files that can be
-- written.
use cs739_cloud_native.Common.{◌≡◌, true, false, Option, some, Text, text_eq}
use cs739_cloud_native.S3Manager.{S3Client, Files}

-- What a bucket holds under a key, and what the calls do to it: a PutObject that succeeds replaces
-- the object, GetObject gives the object, and no call changes another one.
pub record IsBucket {ℓ} {S : Type ℓ} (client : S3Client S) : Type ℓ where
  pub object : S → Text → Text → Option Text
  pub put_same :
      (b k body : Text) (s : S)
      → (client.put_object b k (some body) s).0 ≡ true
      → object (client.put_object b k (some body) s).1 b k ≡ some body
  pub put_other :
      (b k : Text) (body : Option Text) (s : S) (j : Text)
      → text_eq k j ≡ false
      → object (client.put_object b k body s).1 b j ≡ object s b j
  pub get_same :
      (b k body : Text) (s : S) → (client.get_object b k s).0 ≡ some body → object s b k ≡ some body
  pub get_other :
      (b k : Text) (s : S) (j : Text) → object (client.get_object b k s).1 b j ≡ object s b j
  pub list_other :
      (b p : Text) (s : S) (j : Text) → object (client.list_objects b p s).1 b j ≡ object s b j

-- Local files where every ofstream opens: a file holds what was written to it last.
pub record AreWritable {ℓ} {F : Type ℓ} (files : Files F) : Type ℓ where
  pub write_same :
      (path body : Text) (f : F) → files.read_file path (files.write_file path body f) ≡ some body
  pub write_other :
      (path body : Text) (f : F) (other : Text)
      → text_eq path other ≡ false
      → files.read_file other (files.write_file path body f) ≡ files.read_file other f
