-- ===== src/Membership/Moved.antt =====
-- Keys that leave a process for another one (src/gossip_node.cpp): one of them, and several.
use cs739_cloud_native.Common.{
  ◌≡◌, ◌⊎◌, sym, ap, ◌∙◌, subst, false, List, [], ◌∷◌, arith, Text, text_eq, text_eq_iff, contains,
  Bool-cases, inl, inr,
}
use cs739_cloud_native.Cluster.{World}
use cs739_cloud_native.Cluster.Frame.{store_of}
use cs739_cloud_native.Membership.Readings.{held, Absent, Shrunk, Shrunk-same, Shrunk-trans}

-- A key has left a process, or has not: no other key is touched anywhere, and what the process held
-- under this one is still there, or at the peer.
pub record Moved (this peer key : Text) (w u : World) : Type 0 where
  pub others : (a k : Text) → text_eq key k ≡ false → held u a k ≡ held w a k
  pub kept :
      (held u this key ≡ held w this key)
      ⊎ ((held u peer key ≡ held w this key) × Absent u this key)
  pub shrunk : Shrunk this w u

-- The same for several keys.
pub record MovedAll (this peer : Text) (keys : List Text) (w u : World) : Type 0 where
  pub others : (a k : Text) → contains keys k ≡ false → held u a k ≡ held w a k
  pub kept :
      (k : Text)
      → (held u this k ≡ held w this k) ⊎ ((held u peer k ≡ held w this k) × Absent u this k)
  pub shrunk : Shrunk this w u

pub MovedAll-none : (this peer : Text) (w u : World) → w ≡ u → MovedAll this peer [] w u
MovedAll-none this peer w u e = record {
  others = λ a k c. ap (λ x. held x a k) (sym e);
  kept = λ k. inl (ap (λ x. held x this k) (sym e));
  shrunk = Shrunk-same this w u (ap (λ x. store_of x this) (sym e));
}

contains-neither :
    (key : Text) (keys : List Text) (k : Text)
    → contains (key ∷ keys) k ≡ false
    → (text_eq key k ≡ false) × (contains keys k ≡ false)
unfolding contains
contains-neither key keys k c = (ground (arith, c), ground (arith, c))

pub MovedAll-cons :
    (this peer key : Text) (keys : List Text) (w v u : World)
    → contains keys key ≡ false
    → Moved this peer key w v
    → MovedAll this peer keys v u
    → MovedAll this peer (key ∷ keys) w u
MovedAll-cons this peer key keys w v u new one rest = record {
  others =
      λ a k c. let (x, y) = contains-neither key keys k c in rest.others a k y ∙ one.others a k x;
  kept = λ k. elim (Bool-cases (text_eq key k)) [
    | inl hit ↦
        subst
          (λ k.
            (held u this k ≡ held w this k) ⊎ ((held u peer k ≡ held w this k) × Absent u this k))
          ((text_eq_iff key k).0 hit)
          (elim one.kept [
            | inl stays ↦ inl (rest.others this key new ∙ stays)
            | inr (moved, gone) ↦
                inr (rest.others peer key new ∙ moved, rest.shrunk.absent key gone)
          ])
    | inr miss ↦ elim (rest.kept k) [
      | inl stays ↦ inl (stays ∙ one.others this k miss)
      | inr (moved, gone) ↦ inr (moved ∙ one.others this k miss, gone)
    ]
  ];
  shrunk = Shrunk-trans this w v u one.shrunk rest.shrunk;
}
