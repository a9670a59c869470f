-- ===== src/Client/Durable.antt =====
-- A Put of the client (src/client_grpc.cpp) and the stores of the servers.
use cs739_cloud_native.Common.{
  ℕ, List, refl, some, lookup, ◌*◌, ◌≤◌, ◌≡◌, ◌∙◌, ap, subst, Bool, true, false, arith, Text, ℤ,
}
use cs739_cloud_native.Versions.{VersionVector, update_version}
use cs739_cloud_native.StateMachine
use cs739_cloud_native.Node.{Node, replica_n, w_count}
use cs739_cloud_native.Ring.{get_replicas_nodes}
use cs739_cloud_native.Cluster.{Env, World, self}
use cs739_cloud_native.Cluster.Frame.{bind-some, self-some}
use cs739_cloud_native.Coordinator.{PutReturn, PutResponse, client_put}
use cs739_cloud_native.Coordinator.Acked.{Written}
use cs739_cloud_native.Coordinator.Quorum.{client_put-Written}
use cs739_cloud_native.Client.{Session, done, put_again, get_until, put}
use cs739_cloud_native.Client.Goes.{IsGood, bind-done}
use cs739_cloud_native.Client.Sound.{get_until-Goes}
use cs739_cloud_native.Client.Cli.{Cli, put_successful, read_word, put_line}
use cs739_cloud_native.Client.Kept.{put_again-Committed}

-- A request with the version that the client had has been answered OK by a server; and enough of
-- the replicas of the key that this server finds hold the value, under that version with the
-- server's own entry one higher.
pub record Acknowledged (env : Env) (key value : Text) (sent s' : Session) : Type 0 where
  pub server : Text
  pub before : World
  pub node : Node
  pub there : lookup server before.nodes ≡ some node
  pub resp : PutResponse
  pub ran :
      client_put env server key
        (record {
          value = value;
          version_info = StateMachine.get_version sent.client.state_machine key;
        })
        before
      ≡ some (resp, s'.world)
  pub answered : resp.ret ≡ PutReturn.ok
  pub count : ℕ
  pub enough : w_count ≤ count
  pub written :
      Written key value
        (update_version (StateMachine.get_version sent.client.state_machine key) server)
        (get_replicas_nodes env.hash node.ring key (2 * replica_n))
        s'.world
        count

put_again-Acknowledged :
    (env : Env) (input : ℕ → ℤ) (pick : ℕ → ℕ) (fuel : ℕ) (key value : Text) (s s' : Session)
    → IsGood s
    → put_again env input pick fuel key value s ≡ done true s'
    → Acknowledged env key value s s'
unfolding client_put
put_again-Acknowledged env input pick fuel key value s s' good h =
    let c = put_again-Committed env input pick fuel key value s s' h in
    let (n, v, a, _) = bind-some (self c.server) _ c.before c.ran in
    let there_is = (self-some c.server c.before v n a).0 in
    let (k, enough, held) =
      client_put-Written env c.server key _ c.before s'.world n c.resp there_is
        (c.sound good c.server n there_is).ring c.ran c.answered in
    record {
      server = c.server;
      before = c.before;
      node = n;
      there = there_is;
      resp = c.resp;
      ran = c.ran;
      answered = c.answered;
      count = k;
      enough = enough;
      written = held;
    }

-- From a session where the rings are in order and every version vector names a server once, a Put
-- of the client that returns true, with retry or without, ends with a ClientPut that some server
-- ran on the client's value and version, and answered OK; the version is what the client had at
-- first with retry, and what it had after the Get without. At least two distinct servers, of the
-- replicas of the key that this server finds, then hold the value under that version, in which the
-- entry of this very server is one higher.
pub put-Acknowledged :
    (env : Env) (input : ℕ → ℤ) (pick : ℕ → ℕ) (fuel : ℕ) (key value : Text) (retry : Bool)
    (s s' : Session)
    → IsGood s
    → put env input pick fuel key value retry s ≡ done true s'
    → (sent : Session) × (retry ≡ true → sent ≡ s)
      × (retry ≡ false → get_until env input pick fuel fuel key s ≡ done tt sent)
      × Acknowledged env key value sent s'
unfolding put
put-Acknowledged env input pick fuel key value true s s' good h = (
  s,
  λ _. refl,
  λ e. absurd (ground (arith, e)),
  put_again-Acknowledged env input pick fuel key value s s' good h,
)
put-Acknowledged env input pick fuel key value false s s' good h =
    let (u, mid, got, next) = bind-done (get_until env input pick fuel fuel key) _ s h in
    let good' = ((get_until-Goes env input pick fuel fuel key).at s mid u good got).0 in
    (
      mid,
      λ e. absurd (ground (arith, e)),
      λ _. got,
      put_again-Acknowledged env input pick fuel key value mid s' good' next,
    )

-- two distinct servers, at least, hold the value
abbrev Durable : Text → Text → Session → Type 0
Durable key value s' =
    (version : VersionVector) × (replicas : List Text) × (k : ℕ) × (w_count ≤ k)
    × Written key value version replicas s'.world k

put-Durable :
    (env : Env) (input : ℕ → ℤ) (pick : ℕ → ℕ) (fuel : ℕ) (key value : Text) (retry : Bool)
    (s s' : Session)
    → IsGood s
    → put env input pick fuel key value retry s ≡ done true s'
    → Durable key value s'
put-Durable env input pick fuel key value retry s s' good h =
    let (_, _, _, a) = put-Acknowledged env input pick fuel key value retry s s' good h in
    (_, _, a.count, a.enough, a.written)

-- From a session where the rings are in order and every version vector names a server once: where
-- the command line shows that a put was successful, at least two distinct servers hold the value
-- under the key, both as the line gives them, or as an earlier line gave what this one lacks.
pub put_line-Written :
    (env : Env) (input : ℕ → ℤ) (pick : ℕ → ℕ) (fuel : ℕ) (words : List Text) (st st' : Cli)
    (s s' : Session)
    → IsGood s
    → put_line env input pick fuel words st s ≡ done (st', put_successful) s'
    → (version : VersionVector) × (replicas : List Text) × (k : ℕ) × (w_count ≤ k)
      × Written
          (read_word st.key words).0
          (read_word st.value (read_word st.key words).1).0
          version
          replicas
          s'.world
          k
unfolding put_line
put_line-Written env input pick fuel words st st' s s' good h =
    let key = (read_word st.key words).0 in
    let value = (read_word st.value (read_word st.key words).1).0 in
    let (ok, mid, ran, last) = bind-done (put env input pick fuel key value false) _ s h in
    let e : mid ≡ s' = ground arith in
    let yes : ok ≡ true = ground (arith, last) in
    subst (λ (x : Session). Durable key value x) e
      (put-Durable env input pick fuel key value false s mid good (ran ∙ ap (λ b. done b mid) yes))
