-- ===== src/Client/Kept.antt =====
-- What a Put of the client (src/client_grpc.cpp) that returns true leaves behind.
use cs739_cloud_native.Common.{
  ℕ, zero, suc, ◌≡◌, sym, ap, ◌∙◌, subst, true, false, some, arith, Text, lookup, Option-cases, inl,
  inr, ℤ,
}
use cs739_cloud_native.StateMachine
use cs739_cloud_native.StateMachine.{StateMachine}
use cs739_cloud_native.Versions.{update_version}
use cs739_cloud_native.Node.{Data}
use cs739_cloud_native.Cluster.{Env, World, M}
use cs739_cloud_native.Coordinator.{PutReturn, PutResponse, client_put}
use cs739_cloud_native.Cluster.Keeps.{AllNodes}
use cs739_cloud_native.Cluster.Sound.{IsSound}
use cs739_cloud_native.Coordinator.Sound.{client_put-Keeps}
use cs739_cloud_native.Client.Goes.{IsClean, IsGood, bind-done, update_channel-IsClean}
use cs739_cloud_native.Client.{
  me, change, Client, Session, done, call, remember, update_channel_to_coordinator, put_again,
}
use cs739_cloud_native.Client.Replies.{client_put-ret, Reached, call-Reached, PutReturn-cases}

-- What a successful write of the client has done: some server has answered it with OK, and the
-- client keeps the value with the version in which the coordinator that was named is one higher.
pub record Committed (env : Env) (key value : Text) (s s' : Session) : Type 0 where
  pub server : Text
  pub before : World
  pub resp : PutResponse
  pub ran :
      client_put env server key
        (record {
          value = value;
          version_info = StateMachine.get_version s.client.state_machine key;
        })
        before
      ≡ some (resp, s'.world)
  pub answered : resp.ret ≡ PutReturn.ok
  pub kept :
      s'.client.state_machine
      ≡ StateMachine.put s.client.state_machine key value
          (update_version (StateMachine.get_version s.client.state_machine key) resp.coordinator)
  pub sound : IsGood s → AllNodes IsSound before

module _ (env : Env) (key value : Text) where
  abbrev request : StateMachine → Data
  request sm = record { value = value; version_info = StateMachine.get_version sm key }

  abbrev next : StateMachine → PutResponse → StateMachine
  next sm resp =
      StateMachine.put sm key value
        (update_version (StateMachine.get_version sm key) resp.coordinator)

  Committed-back :
      (s₁ s s' : Session)
      → s₁.client.state_machine ≡ s.client.state_machine
      → (IsGood s → IsGood s₁)
      → Committed env key value s₁ s'
      → Committed env key value s s'
  Committed-back s₁ s s' e g c = record {
    server = c.server;
    before = c.before;
    resp = c.resp;
    ran =
        subst (λ sm. client_put env c.server key (request sm) c.before ≡ some (c.resp, s'.world)) e
          c.ran;
    answered = c.answered;
    kept = subst (λ sm. s'.client.state_machine ≡ next sm c.resp) e c.kept;
    sound = λ good. c.sound (g good);
  }

  Reached-IsSound :
      (s v : Session) (resp : PutResponse)
      → (x : Reached (λ addr. client_put env addr key (request s.client.state_machine)) s v resp)
      → IsGood s
      → AllNodes IsSound x.before
  Reached-IsSound s v resp x g a n e = g.servers a n (ap (λ ns. lookup a ns) (sym x.same_nodes) ∙ e)

  -- A server that sends the client on leaves it and the servers good.
  Reached-IsGood :
      (s v : Session) (resp : PutResponse)
      → Reached (λ addr. client_put env addr key (request s.client.state_machine)) s v resp
      → IsGood s
      → IsGood v
  Reached-IsGood s v resp x g = record {
    servers =
        ((client_put-Keeps env x.server key (request s.client.state_machine)
            (g.clean.clocks key)).at
          x.before v.world resp (Reached-IsSound s v resp x g) x.ran).0;
    clean = subst IsClean (sym x.same_client) g.clean;
  }

  -- The last reply of the client's Put is OK, and the client writes its own store.
  ok-Committed :
      (s v s' : Session) (resp : PutResponse)
      → Reached (λ addr. client_put env addr key (request s.client.state_machine)) s v resp
      → resp.ret ≡ PutReturn.ok
      → done true (record v {
        client = record v.client { state_machine = next v.client.state_machine resp };
      })
        ≡ done true s'
      → Committed env key value s s'
  ok-Committed s v s' resp x good h =
      let last : v.world ≡ s'.world = ground arith in
      let sm : next v.client.state_machine resp ≡ s'.client.state_machine = ground arith in
      record {
        server = x.server;
        before = x.before;
        resp = resp;
        ran =
            subst
              (λ w.
                client_put env x.server key (request s.client.state_machine) x.before
                ≡ some (resp, w))
              last x.ran;
        answered = good;
        sound = Reached-IsSound s v resp x;
        kept = sym sm ∙ ap (λ (c : Client). next c.state_machine resp) x.same_client;
      }

-- A Put of the client that returns true, whatever servers it was sent on to and with whatever fuel,
-- ends with a ClientPut that ran on some server, was answered OK, and was given the version that
-- the client had for the key; and the client keeps the value, with the version in which the server
-- named as the coordinator is one higher.
pub put_again-Committed :
    (env : Env) (input : ℕ → ℤ) (pick : ℕ → ℕ) (fuel : ℕ) (key value : Text) (s s' : Session)
    → put_again env input pick fuel key value s ≡ done true s'
    → Committed env key value s s'
unfolding me change put_again remember update_channel_to_coordinator
put_again-Committed env input pick zero key value s s' h = absurd (ground arith)
put_again-Committed env input pick (suc fuel) key value s s' h =
    let handler : Text → M PutResponse = λ addr. client_put env addr key (record {
      value = value;
      version_info = StateMachine.get_version s.client.state_machine key;
    }) in
    let (r, v, a, b) = bind-done (call env handler) _ s h in
    elim (Option-cases r) [
      | inl silent ↦ absurd (let f : done false v ≡ done true s' = rw silent at b in ground arith)
      | inr (resp, e) ↦
          let reached = call-Reached env handler s v resp (rw e at a) in
          let step = rw e at b in
          elim (PutReturn-cases resp.ret) [
            | inl good ↦ ok-Committed env key value s v s' resp reached good (rw good at step)
            | inr (inl bad) ↦
                absurd (let f : done false v ≡ done true s' = rw bad at step in ground arith)
            | inr (inr (inl elsewhere)) ↦
                let s₁ : Session = record v {
                  client = update_channel_to_coordinator resp.coordinator v.client;
                } in
                Committed-back env key value s₁ s s'
                  (ap (λ (c : Client). c.state_machine) reached.same_client)
                  (λ good. record {
                    servers = (Reached-IsGood env key value s v resp reached good).servers;
                    clean =
                        update_channel-IsClean resp.coordinator v.client
                          (Reached-IsGood env key value s v resp reached good).clean;
                  })
                  (put_again-Committed env input pick fuel key value s₁ s' (rw elsewhere at step))
            | inr (inr (inr never)) ↦ absurd (
                client_put-ret env reached.server key _ reached.before v.world resp reached.ran
                  never)
          ]
    ]
