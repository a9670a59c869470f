-- ===== src/Cluster/Calls.antt =====
-- What an RPC to a handler that calls no other node does, and PeerPut and PeerGet in particular.
use cs739_cloud_native.Common.{
  suc, ◌≡◌, ◌⊎◌, refl, Option, none, some, arith, Text, lookup, insert, Option-cases, inl, inr,
}
use cs739_cloud_native.Node.{Node}
use cs739_cloud_native.Cluster.{
  Env, World, Delivery, delivered, request_lost, reply_lost, self, store, serve, send, drop_reply,
  rpc,
}

-- Where the handler has run: on which state, and what came back.
pub record Ran {ℓ} {A : Type ℓ} (a : Text) (f : Node → Node × A) (w w' : World) (r : Option A)
    : Type ℓ where
  pub before : Node
  pub there : lookup a w.nodes ≡ some before
  pub after : w'.nodes ≡ insert a (f before).0 w.nodes
  pub reply : (r ≡ none) ⊎ (r ≡ some (f before).1)

-- Either nothing has changed and no reply came, or the handler has run.
abbrev pub Outcome {ℓ} : {A : Type ℓ} → Text → (Node → Node × A) → World → World → Option A → Type ℓ
Outcome a f w w' r = ((w'.nodes ≡ w.nodes) × (r ≡ none)) ⊎ Ran a f w w' r

module _ {ℓ} {A : Type ℓ} (a : Text) (f : Node → Node × A) where
  send-Outcome :
      (w w' : World) (r : Option A) → send a (serve a f) w ≡ some (r, w') → Outcome a f w w' r
  unfolding send serve self store
  send-Outcome w w' r h = elim (Option-cases (lookup a w.nodes)) [
    | inl e ↦ inl (ground arith, ground arith)
    | inr (n, e) ↦
        inr (record { before = n; there = e; after = ground arith; reply = inr (ground arith) })
  ]

  lost_reply :
      (w w' : World) (r : Option A) (o : Option (Option A × World))
      → send a (serve a f) w ≡ o
      → drop_reply o ≡ some (r, w')
      → Outcome a f w w' r
  unfolding drop_reply
  lost_reply w w' r none e h = cc
  lost_reply w w' r (some (r₀, v)) e h = elim (send-Outcome w v r₀ e) [
    | inl (same_state, _) ↦ let q : v ≡ w' = ground arith in inl (rw (← q) same_state, ground arith)
    | inr t ↦ inr (record {
      before = t.before;
      there = t.there;
      after = let q : v ≡ w' = ground arith in rw (← q) t.after;
      reply = inl (ground arith);
    })
  ]

  fate :
      (env : Env) (w w' : World) (r : Option A) (d : Delivery)
      → env.net w.calls ≡ d
      → rpc env a (serve a f) w ≡ some (r, w')
      → Outcome a f (record w { calls = suc w.calls }) w' r
  unfolding rpc
  fate env w w' r delivered e h =
      send-Outcome (record w { calls = suc w.calls }) w' r (rw (e, rpc) at h)
  fate env w w' r request_lost e h = inl (ground arith, ground arith)
  fate env w w' r reply_lost e h =
      lost_reply (record w { calls = suc w.calls }) w' r _ refl (rw (e, rpc) at h)

  -- An RPC either leaves every process as it was and brings no reply, or the handler has run once,
  -- and its reply came or was lost.
  pub rpc-Outcome :
      (env : Env) (w w' : World) (r : Option A)
      → rpc env a (serve a f) w ≡ some (r, w')
      → Outcome a f w w' r
  rpc-Outcome env w w' r h = elim (fate env w w' r (env.net w.calls) refl h) [
    | inl x ↦ inl x
    | inr t ↦ inr (record { before = t.before; there = t.there; after = t.after; reply = t.reply })
  ]
