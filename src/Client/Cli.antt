-- ===== src/Client/Cli.antt =====
-- The client's command line, src/client_cli.cpp, from the lines that it is given.
use cs739_cloud_native.Common.{
  ℕ, false, Option, none, some, List, [], ◌∷◌, if◌then◌else◌, Text, text, text_eq, ℤ,
}
use cs739_cloud_native.StateMachine.File.{tokens}
use cs739_cloud_native.Cluster.{Env}
use cs739_cloud_native.Client
use cs739_cloud_native.Client.{C, pure, ◌>>=◌}

-- The variables of main that live across the rounds of its loop.
pub record Cli : Type 0 where
  pub key : Text
  pub value : Text
  pub result : Text

abbrev pub new : Cli
new = record { key = []; value = []; result = [] }

-- What is shown after a command.
pub data Shown : Type 0 where
  put_successful put_failed key_does_not_exist get_failed invalid_command : Shown
  get_successful : Text → Shown

-- iss >> word: at the end of the line the variable keeps what it had.
unfoldable pub read_word : Text → List Text → Text × List Text
read_word old [] = (old, [])
read_word old (t ∷ ts) = (t, ts)

unfoldable pub show_get : Option Text → Shown
show_get none = get_failed
show_get (some []) = key_does_not_exist
show_get (some (c ∷ result)) = get_successful (c ∷ result)

-- `result` after a Get
unfoldable pub store_result : Option Text → Cli → Cli
store_result none st = st
store_result (some result) st = record st { result = result }

module _ (env : Env) (input : ℕ → ℤ) (pick : ℕ → ℕ) (fuel : ℕ) where
  unfoldable pub put_line : List Text → Cli → C (Cli × Shown)
  put_line words st =
      let (key, rest) = read_word st.key words in
      let (value, last) = read_word st.value rest in
      Client.put env input pick fuel key value false >>= λ ok.
      pure (record st { key = key; value = value }, if ok then put_successful else put_failed)

  unfoldable pub get_line : List Text → Cli → C (Cli × Shown)
  unfolding show_get store_result
  get_line words st =
      let (key, rest) = read_word st.key words in
      Client.get env input pick fuel key >>= λ r.
      pure (store_result r (record st { key = key }), show_get r)

  -- The loop, until `exit` or as far as the lines go.
  unfoldable pub run : List Text → Cli → C (Cli × List Shown)
  unfolding put_line get_line read_word
  run [] st = pure (st, [])
  run (line ∷ lines) st =
      let (command, words) = read_word [] (tokens [] line) in
      let next = λ (one : Cli × Shown). run lines one.0 >>= λ rest. pure (rest.0, one.1 ∷ rest.1) in
      if text_eq command (text "put")
      then put_line words st >>= next
      else if text_eq command (text "get")
      then get_line words st >>= next
      else if text_eq command (text "exit")
      then pure (st, [])
      else next (st, invalid_command)
