-- ===== src/System/Sound.antt =====
-- What holds in every state that the system can come to.
use cs739_cloud_native.Common.{
  ℕ, ◌<◌, ◌≡◌, sym, subst, some, List, Text, text_eq, lookup, lookup-insert, insert, arith,
  Bool-cases, inl, inr, ℤ,
}
use cs739_cloud_native.StateMachine
use cs739_cloud_native.StateMachine.File.{Disk}
use cs739_cloud_native.Ring.{size_mod}
use cs739_cloud_native.Node
use cs739_cloud_native.Node.{Node}
use cs739_cloud_native.Cluster.{Env, World, self, now}
use cs739_cloud_native.Cluster.Keeps.{
  AllNodes, AllNodes-insert, Keeps, Any, Keeps-pure, Keeps-bind, Keeps-if, Keeps-self, Keeps-store,
  Keeps-now,
}
use cs739_cloud_native.Cluster.Sound.{IsSound}
use cs739_cloud_native.Membership.Sound.{gossip-Keeps, admin_cmd-Keeps}
use cs739_cloud_native.Server.{start, tick}
use cs739_cloud_native.Client
use cs739_cloud_native.Client.{Client, Session}
use cs739_cloud_native.Client.Goes.{IsClean, IsGood}
use cs739_cloud_native.Client.Sound.{put-Goes, get-Goes}
use cs739_cloud_native.System.{
  System, session, after, Step, start_server, start_client, put, get, command, round, Reachable,
  begin, next,
}

-- Every server and every client is as the handlers rely on.
pub record IsSafe (sys : System) : Type 0 where
  pub servers : AllNodes IsSound sys.world
  pub clients : (who : Text) (c : Client) → lookup who sys.clients ≡ some c → IsClean c

new-IsSound :
    (node_id : Text) (k : ℕ) (address : Text) (disk : Disk)
    → IsSound (Node.new node_id k address disk)
unfolding StateMachine.get_version
new-IsSound node_id k address disk = record {
  ring = record { sorted = tt; small = tt };
  clocks = λ key. unfold lookup in tt;
}

new-IsClean :
    (config : List Text) (port : Text) (disk : Disk) → IsClean (Client.new config port disk)
unfolding StateMachine.get_version
new-IsClean config port disk = record { clocks = λ key. unfold lookup in tt }

tick-Keeps : (env : Env) (node_id : Text) → Keeps IsSound Any (tick env node_id)
unfolding tick
tick-Keeps env node_id = Keeps-bind IsSound (self node_id) _ (Keeps-self node_id) λ n s.
    Keeps-if n.alive _ _
      (Keeps-bind Any (now env) _ (Keeps-now env) λ t _.
        Keeps-bind Any _ _ (Keeps-store node_id _ (record { ring = s.ring; clocks = s.clocks }))
          λ _ _. Keeps-if _ _ _ (gossip-Keeps env node_id) (Keeps-pure tt tt))
      (Keeps-pure tt tt)

module _ (sys : System) (safe : IsSafe sys) where
  session-IsGood :
      (who : Text) (c : Client) → lookup who sys.clients ≡ some c → IsGood (session sys c)
  session-IsGood who c e = record { servers = safe.servers; clean = safe.clients who c e }

  clients-insert :
      (who : Text) (c : Client)
      → IsClean c
      → (b : Text) (d : Client) → lookup b (insert who c sys.clients) ≡ some d
      → IsClean d
  clients-insert who c k b d e = elim (Bool-cases (text_eq who b)) [
    | inl hit ↦
        let q : c ≡ d = ground (arith, lookup-insert who b c sys.clients) in subst IsClean q k
    | inr miss ↦ safe.clients b d (ground (arith, lookup-insert who b c sys.clients))
  ]

  after-IsSafe : (who : Text) (s : Session) → IsGood s → IsSafe (after sys who s)
  after-IsSafe who s g = record {
    servers = g.servers;
    clients = clients-insert who s.client g.clean;
  }

  moved-IsSafe : (w : World) → AllNodes IsSound w → IsSafe (record sys { world = w })
  moved-IsSafe w all = record { servers = all; clients = safe.clients }

module _ (env : Env) (input : Text → ℕ → ℤ) (pick : Text → ℕ → ℕ)
    (hash-lt : (t : Text) → env.hash t < size_mod) where
  Step-IsSafe : {sys sys' : System} → Step env input pick sys sys' → IsSafe sys → IsSafe sys'
  unfolding start
  Step-IsSafe {sys} (start_server node_id k address disk e) safe = subst IsSafe (sym e) (
      moved-IsSafe sys safe _
        (AllNodes-insert sys.world node_id _ safe.servers (new-IsSound node_id k address disk)))
  Step-IsSafe {sys} (start_client who config port disk e) safe = subst IsSafe (sym e) (record {
    servers = safe.servers;
    clients = clients-insert sys safe who _ (new-IsClean config port disk);
  })
  Step-IsSafe {sys} (put who c fuel key value retry ok s there_is ran e) safe =
      let good =
        (put-Goes env (input who) (pick who) fuel key value retry).at _ s ok
          (session-IsGood sys safe who c there_is) ran in
      subst IsSafe (sym e) (after-IsSafe sys safe who s good.0)
  Step-IsSafe {sys} (get who c fuel key result s there_is ran e) safe =
      let good =
        (get-Goes env (input who) (pick who) fuel key).at _ s result
          (session-IsGood sys safe who c there_is) ran in
      subst IsSafe (sym e) (after-IsSafe sys safe who s good.0)
  Step-IsSafe {sys} (command node_id cmd servers success w ran e) safe = subst IsSafe (sym e) (
      moved-IsSafe sys safe w
        ((admin_cmd-Keeps env hash-lt node_id cmd servers).at sys.world w success safe.servers
          ran).0)
  Step-IsSafe {sys} (round node_id w ran e) safe =
      subst IsSafe (sym e)
        (moved-IsSafe sys safe w ((tick-Keeps env node_id).at sys.world w tt safe.servers ran).0)

  -- In every state that the system can come to, for a hash with values of size_t, the ring of every
  -- server is in order with positions in the range of size_t, and every version vector that a
  -- server or a client keeps names each server once.
  pub Reachable-IsSafe : {sys : System} → Reachable env input pick sys → IsSafe sys
  Reachable-IsSafe begin = record {
    servers = λ a n e. absurd (unfold lookup in cc);
    clients = λ who c e. absurd (unfold lookup in cc);
  }
  Reachable-IsSafe (next r s) = Step-IsSafe s (Reachable-IsSafe r)
