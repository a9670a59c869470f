-- ===== src/Tests/Clients.antt =====
-- Runs of the client (src/client_grpc.cpp) against the two processes.
use cs739_cloud_native.Common.{
  false, ℕ, ◌≡◌, refl, true, Bool, none, List, Text, [], ◌∷◌, text, ℤ, pos,
}
use cs739_cloud_native.StateMachine
use cs739_cloud_native.Node.{add_stub}
use cs739_cloud_native.Client
use cs739_cloud_native.Client.{
  Session, Run, done, undefined, unfinished, remote, call, me, change,
  update_channel_to_coordinator, remember, put_again, reconcile, get, get_until, put,
}
use cs739_cloud_native.Client.Cli
use cs739_cloud_native.Client.Cli.{Cli, Shown, put_successful, read_word, put_line}
use cs739_cloud_native.Client.Kept.{Committed, put_again-Committed}
use cs739_cloud_native.Tests.Processes.{calls, start, env}

unfoldable pub sessions : Unit {0}
unfolding calls add_stub me change remote call update_channel_to_coordinator remember put_again
    reconcile get get_until put
sessions = tt

-- A client whose assigned coordinator is B.
abbrev pub opened : Session
opened = record {
  client = Client.new (text "B" ∷ []) (text "B") (record { writable = true; bytes = none });
  world = start;
}

abbrev pub input : ℕ → ℤ
input i = pos 0

abbrev pub pick : ℕ → ℕ
pick i = 0

abbrev reached : Run Bool → Session
reached (done a s) = s
reached undefined = opened
reached unfinished = opened

abbrev pub closed : Session
closed = reached (put_again env input pick 2 (text "k") (text "x") opened)

pub put_again_runs : put_again env input pick 2 (text "k") (text "x") opened ≡ done true closed
unfolding sessions
put_again_runs = refl

abbrev pub put_closed : Session
put_closed = reached (put env input pick 2 (text "k") (text "x") false opened)

-- B has raised its own version, and the client that of the first server alive.
versions_differ :
    StateMachine.get_version closed.client.state_machine (text "k") ≡ (text "A", 1) ∷ []
unfolding sessions
versions_differ = refl

put_again-Committed_example : Committed env (text "k") (text "x") opened closed
put_again-Committed_example =
    put_again-Committed env input pick 2 (text "k") (text "x") opened closed put_again_runs

-- A put line that lacks its words puts what the line before it did.
words_are_kept :
    (st : Cli)
    → put_line env input pick 2 [] st ≡ put_line env input pick 2 (st.key ∷ st.value ∷ []) st
unfolding put_line read_word
words_are_kept st = refl

abbrev pub put_words : List Text
put_words = text "k" ∷ text "x" ∷ []

abbrev line_state : Run (Cli × Shown) → Session
line_state (done a s) = s
line_state undefined = opened
line_state unfinished = opened

abbrev pub after_line : Session
after_line = line_state (put_line env input pick 2 put_words Cli.new opened)

abbrev pub typed : Cli
typed = record Cli.new { key = text "k"; value = text "x" }

pub put_line_runs :
    put_line env input pick 2 put_words Cli.new opened ≡ done (typed, put_successful) after_line
unfolding sessions put_line read_word
put_line_runs = refl
