-- ===== src/Lambda/Runtime.antt =====
-- The entry of the Lambda function (s3_related/lambda_runtime.cpp), and the trial of the
-- LevelDB wrapper (s3_related/main.cpp). The wrapper is a parameter.
use cs739_cloud_native.Common.{Bool, true, Option, none, some, if◌then◌else◌, Text, text}
use cs739_cloud_native.Encoder.{InvocationResponse, success}
use cs739_cloud_native.Lambda.{S3, handle_event}

unfoldable pub my_handler {ℓ} :
    {S : Type ℓ} → S3 S → (Text → Text → Text) → Text → S → InvocationResponse × S
unfolding handle_event
my_handler client get_string payload s =
    let (result, s') = handle_event client get_string payload s in
    (success result (text "application/json"), s')

-- The calls of LevelDBWrapper that are used, on a state of its own: whether the status is ok; and
-- the value that Get reads.
pub record LevelDbWrapper {ℓ} (D : Type ℓ) : Type ℓ where
  pub open_db : Bool → D → Bool × D
  pub put : Text → Text → D → Bool × D
  pub get : Text → D → (Bool × Text) × D
  pub delete : Text → D → Bool × D

-- `assert` of a status: `none` is the end of the process.
abbrev assert {ℓ κ} : {A : Type ℓ} {D : Type κ} → (Bool × D) → (D → Option A) → Option A
assert (ok, d) next = if ok then next d else none

-- The value that is printed, and the state.
unfoldable pub main {ℓ} : {D : Type ℓ} → LevelDbWrapper D → D → Option (Text × D)
main db d = assert (db.open_db true d) (λ d1.
    assert (db.put (text "example_key") (text "example_value") d1) (λ d2.
      let ((ok, read_value), d3) = db.get (text "example_key") d2 in
      assert (ok, d3)
        (λ d4. assert (db.delete (text "example_key") d4) (λ d5. some (read_value, d5)))))
