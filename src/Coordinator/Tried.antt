-- ===== src/Coordinator/Tried.antt =====
-- The replicas that a loop of ClientGet or ClientPut (src/gossip_node.cpp) has got an answer of,
-- and those that it has not tried yet.
use cs739_cloud_native.Common.{
  ◌≡◌, ◌≢◌, ◌⊎◌, refl, subst, true, false, List, [], ◌∷◌, ◌++◌, arith, Text, text_eq_iff, contains,
  contains-append, AllDistinct, append-AllDistinct, Bool-cases, inl, inr,
}

-- `names` are distinct and none of them is still to be tried; those and the ones to be tried, `ps`,
-- are among the replicas.
pub record Tried (replicas ps names : List Text) : Type 0 where
  pub distinct : AllDistinct names
  pub apart : (t : Text) → contains names t ≡ true → contains ps t ≡ false
  pub within : (t : Text) → contains names t ≡ true → contains replicas t ≡ true
  pub rest : (t : Text) → contains ps t ≡ true → contains replicas t ≡ true

pub Tried-none : (replicas : List Text) → Tried replicas replicas []
unfolding contains
Tried-none replicas = record {
  distinct = tt;
  apart = λ t c. absurd (ground (arith, c));
  within = λ t c. absurd (ground (arith, c));
  rest = λ t c. c;
}

pub old_or_new :
    (names : List Text) (p t : Text)
    → contains (names ++ p ∷ []) t ≡ true
    → (contains names t ≡ true) ⊎ (p ≡ t)
unfolding contains
old_or_new names p t k = elim (Bool-cases (contains names t)) [
  | inl c ↦ inl c
  | inr c ↦ inr (ground (arith, contains-append names (p ∷ []) t, text_eq_iff p t))
]

module _ (replicas : List Text) (p : Text) (ps names : List Text)
    (tried : Tried replicas (p ∷ ps) names) where
  not_first : (t : Text) → contains names t ≡ true → (p ≢ t) × (contains ps t ≡ false)
  unfolding contains
  not_first t c =
      let f = tried.apart t c in (λ e. ground (arith, f, text_eq_iff p t), ground (arith, f))

  pub Tried-differs : (t : Text) → contains names t ≡ true → p ≢ t
  Tried-differs t c = (not_first t c).0

  -- The first one has given no answer.
  pub Tried-skip : Tried replicas ps names
  unfolding contains
  Tried-skip = record {
    distinct = tried.distinct;
    apart = λ t c. (not_first t c).1;
    within = tried.within;
    rest = λ t c. tried.rest t (ground (arith, c));
  }

  fresh : contains names p ≡ false
  fresh = elim (Bool-cases (contains names p)) [
    | inl c ↦ absurd ((not_first p c).0 refl)
    | inr c ↦ c
  ]

  -- The first one has answered.
  pub Tried-add : contains ps p ≡ false → Tried replicas ps (names ++ p ∷ [])
  unfolding contains
  Tried-add c = record {
    distinct = append-AllDistinct names p fresh tried.distinct;
    apart = λ t k. elim (old_or_new names p t k) [
      | inl old ↦ Tried-skip.apart t old
      | inr e ↦ subst (λ x. contains ps x ≡ false) e c
    ];
    within = λ t k. elim (old_or_new names p t k) [
      | inl old ↦ tried.within t old
      | inr e ↦ tried.rest t (ground (arith, text_eq_iff p t, e))
    ];
    rest = Tried-skip.rest;
  }
