-- ===== src/Versions/Latest/Maximal.antt =====
-- The verdict `earlier` of `check_conflict_version` (src/state_machine.cpp) as a strict order.
use cs739_cloud_native.Common.{
  ℕ, ◌≤◌, ◌<◌, ◌≡◌, ◌↔◌, refl, sym, ◌∙◌, true, false, ◌&&◌, some, [], ◌∷◌, arith, ltb, any-In,
  In-of_any, any-false-In, any-false, Text, text_eq, text_eq_iff, text_eq_refl, keys, Bool-cases,
  inl, inr, In, lookup, IsDistinct, In-of_lookup, lookup_of_In, lookup_of_contains, contains_of_In,
}
use cs739_cloud_native.Versions.{VersionVector, earlier, check_conflict_version, is_earlier}
use cs739_cloud_native.Versions.Reference.{
  has_less, has_greater, misses, reference, check_conflict_version-eq-reference,
}
use cs739_cloud_native.Versions.Latest.Newest.{not-earlier_self}

-- what `earlier` says of two vectors with entries
pub record Behind (v w : VersionVector) : Type 0 where
  pub nowhere_ahead :
      (s : Text) (n : ℕ) → lookup s w ≡ some n → (m : ℕ) × (lookup s v ≡ some m) × (m ≤ n)
  pub at : Text
  pub low : ℕ
  pub high : ℕ
  pub lower : lookup at v ≡ some low
  pub higher : lookup at w ≡ some high
  pub rises : low < high

module _ (v w : VersionVector) (dv : IsDistinct v) (dw : IsDistinct w) where
  not_ahead :
      (s : Text) (n : ℕ)
      → misses (keys v) w ≡ false
      → has_greater v w ≡ false
      → lookup s w ≡ some n
      → (m : ℕ) × (lookup s v ≡ some m) × (m ≤ n)
  unfolding misses has_greater
  not_ahead s n m g e =
      let i = In-of_lookup s w e in
      let (k, f) = lookup_of_contains s v (ground (arith, any-false-In _ m i)) in
      let fact = any-false-In _ (any-false-In _ g (In-of_lookup s v f)) i in
      (k, f, ground (arith, text_eq_refl s))

  Behind-of_pair :
      (s t : Text) (a b : ℕ)
      → misses (keys v) w ≡ false
      → has_greater v w ≡ false
      → In (s, a) v
      → In (t, b) w
      → text_eq s t && ltb a b ≡ true
      → Behind v w
  Behind-of_pair s t a b m g i j e =
      let st : s ≡ t = (text_eq_iff s t).0 (ground arith) in
      record {
        nowhere_ahead = λ r n h. not_ahead r n m g h;
        at = s;
        low = a;
        high = b;
        lower = lookup_of_In s v dv i;
        higher = rw st (lookup_of_In t w dw j);
        rises = ground arith;
      }

  Behind-of_tests :
      misses (keys v) w ≡ false → has_greater v w ≡ false → has_less v w ≡ true → Behind v w
  unfolding has_less
  Behind-of_tests m g l =
      let (p, i, f) = In-of_any _ v l in
      let (q, j, e) = In-of_any _ w f in Behind-of_pair p.0 q.0 p.1 q.1 m g i j e

  not_higher :
      (t s : Text) (m n : ℕ)
      → Behind v w
      → In (t, m) v
      → In (s, n) w
      → text_eq t s && ltb n m ≡ false
  not_higher t s m n h i j =
      let (k, f, p) = h.nowhere_ahead s n (lookup_of_In s w dw j) in
      elim (Bool-cases (text_eq t s)) [
        | inl e ↦
            let g : lookup s v ≡ some m = rw (← (text_eq_iff t s).0 e) (lookup_of_In t v dv i) in
            let q : m ≡ k = ground arith in rw e (ground arith)
        | inr e ↦ rw e
      ]

  tests_of_Behind :
      Behind v w → (misses (keys v) w ≡ false) × (has_greater v w ≡ false) × (has_less v w ≡ true)
  unfolding misses has_less has_greater
  tests_of_Behind h = (
    any-false _ w λ (s, n) j.
        let (m, f, p) = h.nowhere_ahead s n (lookup_of_In s w dw j) in
        rw (contains_of_In s v (In-of_lookup s v f)),
    any-false _ v λ (t, m) i. any-false _ w λ (s, n) j. not_higher t s m n h i j,
    any-In _ (In-of_lookup h.at v h.lower)
        (any-In _ (In-of_lookup h.at w h.higher) (rw text_eq_refl (ground arith))),
  )

Behind-trans : (u v w : VersionVector) → Behind u v → Behind v w → Behind u w
Behind-trans u v w h k =
    let (b, e, p) = k.nowhere_ahead k.at k.high k.higher in
    let (a, f, q) = h.nowhere_ahead k.at b e in
    let low_eq : b ≡ k.low = let g : some b ≡ some k.low = sym e ∙ k.lower in ground arith in
    let rises : k.low < k.high = k.rises in
    record {
      nowhere_ahead = λ s n g.
          let (m, c, x) = k.nowhere_ahead s n g in
          let (l, d, y) = h.nowhere_ahead s m c in (l, d, omega arith);
      at = k.at;
      low = a;
      high = k.high;
      lower = f;
      higher = k.higher;
      rises = omega arith;
    }

-- one answer is earlier than another
abbrev pub Earlier : VersionVector → VersionVector → Type 0
Earlier v w = check_conflict_version v w ≡ earlier

pub Earlier-iff :
    (p q : Text × ℕ) (v w : VersionVector)
    → IsDistinct (p ∷ v)
    → IsDistinct (q ∷ w)
    → Earlier (p ∷ v) (q ∷ w) ↔ Behind (p ∷ v) (q ∷ w)
unfolding reference
Earlier-iff p q v w dv dw = rw check_conflict_version-eq-reference (
  λ h. Behind-of_tests (p ∷ v) (q ∷ w) dv dw (ground arith) (ground arith) (ground arith),
  λ h. ground (arith, tests_of_Behind (p ∷ v) (q ∷ w) dv dw h),
)

-- The verdict `earlier` is transitive on vectors that name each server once.
pub Earlier-trans :
    (u v w : VersionVector)
    → IsDistinct u
    → IsDistinct v
    → IsDistinct w
    → Earlier u v
    → Earlier v w
    → Earlier u w
Earlier-trans u v [] du dv dw h k = unfold check_conflict_version in cc
Earlier-trans u [] (r ∷ w) du dv dw h k = unfold check_conflict_version in cc
Earlier-trans [] (q ∷ v) (r ∷ w) du dv dw h k = unfold check_conflict_version in refl
Earlier-trans (p ∷ u) (q ∷ v) (r ∷ w) du dv dw h k = (Earlier-iff p r u w du dw).1 (
    Behind-trans (p ∷ u) (q ∷ v) (r ∷ w) ((Earlier-iff p q u v du dv).0 h)
      ((Earlier-iff q r v w dv dw).0 k))

pub not-Earlier-self : (v : VersionVector) → ¬ Earlier v v
unfolding is_earlier
not-Earlier-self v h = ground (arith, not-earlier_self v)
