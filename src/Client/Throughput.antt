-- ===== src/Client/Throughput.antt =====
-- The load test of src/performance/throughput.h and throughput.cpp, without its clock and its
-- output.
use cs739_cloud_native.Common.{
  ℕ, zero, suc, Bool, true, false, ◌||◌, none, some, [], ◌∷◌, if◌then◌else◌, ltb, length, Text,
  text, text_eq, Assoc, insert, ℤ,
}
use cs739_cloud_native.Cluster.{Env}
use cs739_cloud_native.Client
use cs739_cloud_native.Client.{C, pure, ◌>>=◌, ◌>>◌, unfinished}

-- `client_` is the client of the session. `drawn` counts the random strings.
pub record ThroughputTest : Type 0 where
  pub behavior : Text
  pub test_case : Assoc Text
  pub drawn : ℕ

abbrev pub new : Text → ThroughputTest
new behavior = record { behavior = behavior; test_case = []; drawn = 0 }

-- `random_string i length` is the i-th string drawn.
module _ (env : Env) (input : ℕ → ℤ) (pick : ℕ → ℕ) (random_string : ℕ → ℕ → Text) (fuel : ℕ) where
  -- The loop runs until there are enough different keys, on fuel.
  unfoldable pub prepare_testcase : ℕ → ℕ → ℕ → ℕ → ThroughputTest → C ThroughputTest
  prepare_testcase zero num_iterations key_length value_length t = λ s. unfinished
  prepare_testcase (suc left) num_iterations key_length value_length t =
      let key = random_string t.drawn key_length in
      let value = random_string (suc t.drawn) value_length in
      let t' = record t { test_case = insert key value t.test_case; drawn = suc (suc t.drawn) } in
      if ltb (length t.test_case) num_iterations
      then (if text_eq t.behavior (text "get")
          then Client.put env input pick fuel key value false
            >> prepare_testcase left num_iterations key_length value_length t'
          else prepare_testcase left num_iterations key_length value_length t')
      else pure t

  -- The loop of run_put_operation: `res` at its end.
  unfoldable pub put_all : Assoc Text → Bool → C Bool
  put_all [] res = pure res
  put_all ((key, value) ∷ rest) res =
      Client.put env input pick fuel key value false >>= λ ok. put_all rest (ok || res)

  -- Whether it reports success.
  unfoldable pub run_put_operation : ThroughputTest → C Bool
  run_put_operation t = put_all t.test_case true

  -- The loop of run_get_operation; Get returns true where it has a result.
  unfoldable pub get_all : Assoc Text → Bool → C Bool
  get_all [] res = pure res
  get_all ((key, value) ∷ rest) res = Client.get env input pick fuel key >>= λ r.
      get_all rest (elim r [ some _ ↦ true | none ↦ false ] || res)

  unfoldable pub run_get_operation : ThroughputTest → C Bool
  run_get_operation t = get_all t.test_case true
