-- ===== src/Tests/Buckets.antt =====
-- Runs of the S3 directory (example/s3_manager.h) and of the Lambda function
-- (example/main.cpp).
use cs739_cloud_native.Common.{
  ◌≡◌, ◌≢◌, refl, ◌∙◌, Bool, true, false, Option, none, some, [], ◌∷◌, ◌++◌, Text, text, Assoc,
  lookup, insert, keys, here, there, lookup-insert, lookup-insert_self, text_eq, ◌↔◌, arith,
  contains, get_or, if◌then◌else◌,
}
use cs739_cloud_native.Encoder.{
  IoStream, Json, GetObjectOutcome, result, error, success, failure, tellp, seekg_beg, read,
  read_bits, encode, download_and_encode_file, has_input, my_handler,
}
use cs739_cloud_native.Encoder.Answers.{Asks, Encoded, my_handler_iff}
use cs739_cloud_native.S3Manager.{
  S3Client, Files, S3Manager, returned, new, substr, file_names, upload_files, upload,
  download_objects, download,
}
use cs739_cloud_native.S3Manager.Laws.{IsBucket, AreWritable}
use cs739_cloud_native.S3Manager.RoundTrip.{download-upload}

abbrev put_body : Text → Option Text → Assoc Text → Bool × Assoc Text
put_body k none s = (false, s)
put_body k (some body) s = (true, insert k body s)

-- One bucket, as a map.
abbrev bucket : S3Client (Assoc Text)
bucket = record {
  list_objects = λ b p s. (some (keys s), s);
  get_object = λ b k s. (lookup k s, s);
  put_object = λ b k body s. put_body k body s;
}

other_object :
    (k : Text) (body : Option Text) (s : Assoc Text) (j : Text)
    → text_eq k j ≡ false
    → lookup j (put_body k body s).1 ≡ lookup j s
other_object k none s j other = refl
other_object k (some body) s j other = lookup-insert k j body s ∙ rw other refl

bucket-IsBucket : IsBucket bucket
bucket-IsBucket = record {
  object = λ s b k. lookup k s;
  put_same = λ b k body s good. lookup-insert_self k body s;
  put_other = λ b k body s j other. other_object k body s j other;
  get_same = λ b k body s found. found;
  get_other = λ b k s j. refl;
  list_other = λ b p s j. refl;
}

-- A directory of two files and another directory.
abbrev disk : Files (Assoc Text)
disk = record {
  directory_iterator = λ p f. some ((text "a", true) ∷ (text "sub", false) ∷ (text "b", true) ∷ []);
  read_file = λ p f. lookup p f;
  write_file = λ p body f. insert p body f;
  open_append = λ p f. some f;
  append_file = λ p t f. f;
}

disk-AreWritable : AreWritable disk
disk-AreWritable = record {
  write_same = λ p body f. lookup-insert_self p body f;
  write_other = λ p body f q other. lookup-insert p q body f ∙ (rw other refl);
}

abbrev test : S3Manager
test = record {
  bucket_name = text "bucketencoder";
  prefix = text "test/";
  region = text "us-east-2";
}

abbrev local : Assoc Text
local = (text "test/a", text "x") ∷ (text "test/b", text "y") ∷ []

abbrev uploaded : Assoc Text
uploaded = (upload disk bucket test local []).1

runs : Unit {0}
unfolding new substr file_names upload_files upload download_objects download insert lookup keys
    text_eq
runs = tt

both_are_there : uploaded ≡ local
unfolding runs
both_are_there = refl

b_is_read : lookup (text "test/b") local ≡ some (text "y")
unfolding runs
b_is_read = refl

upload_succeeds : (upload disk bucket test local []).0 ≡ returned 0
unfolding runs
upload_succeeds = refl

download_succeeds : (download disk bucket test [] uploaded).0 ≡ returned 0
unfolding runs
download_succeeds = refl

listing : some (keys uploaded) ≡ some (text "test/a" ∷ text "test/b" ∷ [])
unfolding runs
listing = refl

has_a_name : text "b" ≢ []
has_a_name h = ground arith

download-upload_example :
    lookup (text "test/b") (download disk bucket test [] uploaded).1.0 ≡ some (text "y")
download-upload_example =
    download-upload disk bucket test bucket-IsBucket disk-AreWritable local [] []
      ((text "a", true) ∷ (text "sub", false) ∷ (text "b", true) ∷ [])
      (text "test/a" ∷ text "test/b" ∷ []) (text "b") (text "y") refl (there (there here))
      has_a_name b_is_read upload_succeeds listing (there here) download_succeeds

-- A request that names an object, with a body that has been read before.
abbrev request : Assoc Text
request = (text "s3bucket", text "b") ∷ (text "s3key", text "k") ∷ []

abbrev json : Json (Assoc Text)
json = record {
  parse = λ payload. if text_eq payload (text "request") then some request else none;
  value_exists = λ v name. contains (keys v) name;
  is_string = λ v name. true;
  get_string = λ v name. get_or (lookup name v) [];
}

abbrev hello : IoStream
hello = record {
  content = text "hello";
  position = 3;
  put_position = some 5;
  eof = true;
  fail = false;
}

abbrev stored : Text → Text → GetObjectOutcome
stored bucket_name key = if text_eq key (text "k") then result hello else error (text "NoSuchKey")

abbrev marked : Text → Text
marked t = text "=" ++ t

answers : Unit {0}
unfolding runs contains tellp seekg_beg read read_bits encode download_and_encode_file has_input
    my_handler
answers = tt

it_answers :
    my_handler json marked stored (text "request")
    ≡ some (success (text "=hello") (text "application/base64"))
unfolding answers
it_answers = refl

it_refuses :
    my_handler json marked (λ b k. error (text "NoSuchKey")) (text "request")
    ≡ some (failure (text "NoSuchKey") (text "DownloadFailure"))
unfolding answers
it_refuses = refl

-- An error with no message is taken for a success.
an_empty_message :
    my_handler json marked (λ b k. error []) (text "request")
    ≡ some (success [] (text "application/base64"))
unfolding answers
an_empty_message = refl

my_handler_iff_example :
    (my_handler json marked stored (text "request")
      ≡ some (success (text "=hello") (text "application/base64")))
    ↔ ((v : Assoc Text) × Asks json (text "request") v
        × Encoded marked
            (stored (json.get_string v (text "s3bucket")) (json.get_string v (text "s3key")))
            (text "=hello")
        × (text "application/base64" ≡ text "application/base64"))
my_handler_iff_example =
    my_handler_iff json marked stored (text "request") (text "=hello") (text "application/base64")
