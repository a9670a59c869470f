-- ===== src/Node/Gossip.antt =====
-- The handler Gossip (src/gossip_node.cpp): merging the lists of heartbeats.
use cs739_cloud_native.Common.{
  ℕ, ◌≤◌, ◌≡◌, ◌↔◌, sym, ap, ◌∙◌, max, Option, none, some, [], ◌∷◌, arith, if◌then◌else◌, Text,
  text_eq, text_eq_iff, text_eq_refl, Assoc, lookup, lookup-insert, In, here, there, Bool-cases,
  Option-cases, inl, inr,
}
use cs739_cloud_native.Versions.Order.{Le}
use cs739_cloud_native.Node.{Node, MemberList, merge_heartbeat, merge_heartbeats, receive_gossip}

-- The list knows the server, with a heartbeat that is not before this one.
abbrev pub Knows : Assoc ℕ → Text × ℕ → Type 0
Knows u p = (m : ℕ) × (lookup p.0 u ≡ some m) × (p.1 ≤ m)

abbrev later : Option ℕ → ℕ → ℕ
later o t = elim o [ none ↦ t | some s ↦ max t s ]

lookup-merge_heartbeat :
    (m : Assoc ℕ) (p : Text × ℕ) (k : Text)
    → lookup k (merge_heartbeat m p)
      ≡ (if text_eq p.0 k then some (later (lookup p.0 m) p.1) else lookup k m)
unfolding merge_heartbeat
lookup-merge_heartbeat m (j, t) k = lookup-insert j k _ m

later-old : (o : Option ℕ) (t s : ℕ) → o ≡ some s → s ≤ later o t
later-old none t s e = absurd (ground arith)
later-old (some r) t s e = ground arith

later-new : (o : Option ℕ) (t : ℕ) → t ≤ later o t
later-new none t = omega arith
later-new (some r) t = ground arith

module _ (m u : Assoc ℕ) (p : Text × ℕ) where
  above_step : Le (merge_heartbeat m p) u → Le m u × Knows u p
  above_step h =
      let new =
        h p.0 (later (lookup p.0 m) p.1) (lookup-merge_heartbeat m p p.0 ∙ rw text_eq_refl) in
      (
        λ s n e. elim (Bool-cases (text_eq p.0 s)) [
          | inr miss ↦ h s n (lookup-merge_heartbeat m p s ∙ rw miss e)
          | inl hit ↦
              let ps : p.0 ≡ s = (text_eq_iff p.0 s).0 hit in
              (
                new.0,
                ap (λ x. lookup x u) (sym ps) ∙ new.1,
                omega (arith, new.2, later-old (lookup p.0 m) p.1 n (ap (λ x. lookup x m) ps ∙ e)),
              )
        ],
        (new.0, new.1, omega (arith, new.2, later-new (lookup p.0 m) p.1)),
      )

  least_step : Le m u → Knows u p → Le (merge_heartbeat m p) u
  least_step h k s n e = elim (Bool-cases (text_eq p.0 s)) [
    | inr miss ↦ h s n (rw (lookup-merge_heartbeat, miss) at e)
    | inl hit ↦
        let ps : p.0 ≡ s = (text_eq_iff p.0 s).0 hit in
        let q : later (lookup p.0 m) p.1 ≡ n = ground (arith, lookup-merge_heartbeat m p s, e) in
        (
          k.0,
          ap (λ x. lookup x u) (sym ps) ∙ k.1,
          elim (Option-cases (lookup p.0 m)) [
            | inl unknown ↦ let r : p.1 ≡ n = rw unknown at q in omega (arith, k.2)
            | inr (t, known) ↦
                let (a, f, g) = h p.0 t known in
                let same : a ≡ k.0 = ground (arith, f, k.1) in
                let r : max p.1 t ≡ n = rw known at q in omega (arith, k.2)
          ],
        )
  ]

merge-join :
    (m u : Assoc ℕ) (ps : MemberList)
    → Le (merge_heartbeats m ps) u ↔ (Le m u × ((p : Text × ℕ) → In p ps → Knows u p))
unfolding merge_heartbeats
merge-join m u [] = (λ h. (h, λ p i. elim i [ ]), λ h. h.0)
merge-join m u (q ∷ ps) =
    let rest = merge-join (merge_heartbeat m q) u ps in
    (
      λ h.
          let (a, b) = rest.0 h in let (c, d) = above_step m u q a in (c, λ p i. cons_case p i d b),
      λ (a, b). rest.1 (least_step m u q a (b q here), λ p i. b p (there i)),
    )
  where
    cons_case :
        (p : Text × ℕ)
        → In p (q ∷ ps)
        → Knows u q
        → ((r : Text × ℕ) → In r ps → Knows u r)
        → Knows u p
    cons_case p here d b = d
    cons_case p (there i) d b = b p i

-- After a gossip message the heartbeats are the least upper bound of those before and those of the
-- message: they lie below a list exactly when both do. So none goes back or is lost, and none is
-- made up.
pub receive_gossip-join :
    (n : Node) (member_list : MemberList) (u : Assoc ℕ)
    → Le (receive_gossip n member_list).0.members_heartbeat_list u
      ↔ (Le n.members_heartbeat_list u × ((p : Text × ℕ) → In p member_list → Knows u p))
unfolding receive_gossip
receive_gossip-join n member_list u = merge-join n.members_heartbeat_list u member_list
