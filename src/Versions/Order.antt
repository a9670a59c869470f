-- ===== src/Versions/Order.antt =====
-- What the verdicts of `check_conflict_version` (src/state_machine.cpp) mean in the order of vector
-- clocks, where a server that a vector lacks stands below every version.
use cs739_cloud_native.Common.{
  ℕ, ◌≤◌, ◌≡◌, ◌≢◌, ◌↔◌, refl, sym, ◌∙◌, true, false, not, ◌&&◌, ◌||◌, none, some, [], ◌∷◌, arith,
  ltb, any-In, In-of_any, any-false-In, any-false, Text, text_eq, text_eq_iff, text_eq_refl,
  text_eq_symm, contains, keys, Bool-cases, inl, inr, lookup, In-of_lookup, lookup_of_contains,
  contains_of_lookup, lookup_of_In, IsDistinct, In,
}
use cs739_cloud_native.Versions.{VersionVector, same, latest, conflict, check_conflict_version}
use cs739_cloud_native.Versions.Reference.{
  has_less, has_greater, misses, reference, check_conflict_version-eq-reference,
}

-- Every server of `v` has in `w` at least the version that it has in `v`.
abbrev pub Le : VersionVector → VersionVector → Type 0
Le v w = (s : Text) (n : ℕ) → lookup s v ≡ some n → (m : ℕ) × (lookup s w ≡ some m) × (n ≤ m)

pub Le-refl : (v : VersionVector) → Le v v
Le-refl v s n h = (n, h, omega arith)

pub Le-trans : (u v w : VersionVector) → Le u v → Le v w → Le u w
Le-trans u v w h k s n e = let (m, f, p) = h s n e in let (l, g, q) = k s m f in (l, g, omega arith)

module _ (v w : VersionVector) where
  -- `w` misses no server of `v`, and has none lower
  pub Le_of_tests : misses (keys w) v ≡ false → has_less w v ≡ false → Le v w
  unfolding misses has_less
  Le_of_tests m l s n e =
      let i = In-of_lookup s v e in
      let known : contains (keys w) s ≡ true = ground (arith, any-false-In _ m i) in
      let (k, f) = lookup_of_contains s w known in
      let low = any-false-In _ (any-false-In _ l (In-of_lookup s w f)) i in
      (k, f, ground (arith, text_eq_refl s))

  not_lower :
      (t s : Text) (m n : ℕ)
      → IsDistinct v
      → IsDistinct w
      → Le v w
      → In (t, m) w
      → In (s, n) v
      → text_eq t s && ltb m n ≡ false
  not_lower t s m n dv dw h j i =
      let (k, f, p) = h s n (lookup_of_In s v dv i) in
      elim (Bool-cases (text_eq t s)) [
        | inl e ↦
            let g : lookup s w ≡ some m = rw (← (text_eq_iff t s).0 e) (lookup_of_In t w dw j) in
            let k' : m ≡ k = ground arith in rw e (ground arith)
        | inr e ↦ rw e
      ]

  tests_of_Le :
      IsDistinct v → IsDistinct w → Le v w → (misses (keys w) v ≡ false) × (has_less w v ≡ false)
  unfolding misses has_less
  tests_of_Le dv dw h = (
    any-false _ v
        λ (s, n) i. let (m, f, p) = h s n (lookup_of_In s v dv i) in rw (contains_of_lookup s w f),
    any-false _ w λ (t, m) j. any-false _ v λ (s, n) i. not_lower t s m n dv dw h j i,
  )

-- The two tests change places with the vectors.
pub has_greater-has_less : (v w : VersionVector) → has_greater v w ≡ has_less w v
unfolding has_greater has_less
has_greater-has_less v w = elim (Bool-cases (has_less w v)) [
  | inl e ↦
      let (q, i, f) = In-of_any _ w e in
      let (p, j, g) = In-of_any _ v f in
      any-In _ j (any-In _ i (rw (text_eq_symm p.0 q.0) g)) ∙ sym e
  | inr e ↦
      any-false _ v (λ p j.
        any-false _ w (λ q i. rw (text_eq_symm p.0 q.0) (any-false-In _ (any-false-In _ e i) j)))
      ∙ sym e
]

Le-nil : (v : VersionVector) → Le [] v
unfolding lookup
Le-nil v s n h = cc

not-Le-nil : (p : Text × ℕ) (v : VersionVector) → ¬ Le (p ∷ v) []
unfolding lookup
not-Le-nil p v h = let (m, e, _) = h p.0 p.1 (rw (text_eq_refl p.0)) in cc

module _ (p q : Text × ℕ) (v w : VersionVector) (dv : IsDistinct (p ∷ v))
    (dw : IsDistinct (q ∷ w)) where
  abbrev pv : VersionVector
  pv = p ∷ v

  abbrev qw : VersionVector
  qw = q ∷ w

  -- Both orders, read off the four tests.
  le_iff : Le qw pv ↔ (misses (keys pv) qw || has_less pv qw ≡ false)
  le_iff = (
    λ h. ground (arith, tests_of_Le qw pv dw dv h),
    λ h. Le_of_tests qw pv (ground arith) (ground arith),
  )

  ge_iff : Le pv qw ↔ (has_greater pv qw || misses (keys qw) pv ≡ false)
  ge_iff = (
    λ h. ground (arith, tests_of_Le pv qw dv dw h, has_greater-has_less pv qw),
    λ h. Le_of_tests pv qw (ground arith) (ground (arith, has_greater-has_less pv qw)),
  )

  latest_iff_cons : (check_conflict_version pv qw ≡ latest) ↔ (Le qw pv × ¬ Le pv qw)
  unfolding reference
  latest_iff_cons = rw check_conflict_version-eq-reference (
    λ h. (le_iff.1 (ground arith), λ k. ground (arith, ge_iff.0 k)),
    λ (a, b). ground (
      arith,
      le_iff.0 a,
      λ (e : has_greater pv qw || misses (keys qw) pv ≡ false). b (ge_iff.1 e),
    ),
  )

  same_iff_cons : (check_conflict_version pv qw ≡ same) ↔ (Le qw pv × Le pv qw)
  unfolding reference
  same_iff_cons = rw check_conflict_version-eq-reference (
    λ h. (le_iff.1 (ground arith), ge_iff.1 (ground arith)),
    λ (a, b). ground (arith, le_iff.0 a, ge_iff.0 b),
  )

-- For vectors that name each server once, the incoming one not empty: the verdict is `latest`
-- exactly when the incoming vector has every server of the existing one at the same or a higher
-- version, and the existing one does not have all of the incoming one in this sense.
pub latest_iff :
    (incoming existing : VersionVector)
    → IsDistinct incoming
    → IsDistinct existing
    → incoming ≢ []
    → (check_conflict_version incoming existing ≡ latest)
      ↔ (Le existing incoming × ¬ Le incoming existing)
unfolding check_conflict_version
latest_iff [] existing dv dw ne = absurd (ne refl)
latest_iff (p ∷ v) [] dv dw ne = (λ _. (Le-nil (p ∷ v), not-Le-nil p v), λ _. refl)
latest_iff (p ∷ v) (q ∷ w) dv dw ne = latest_iff_cons p q v w dv dw

-- For vectors that name each server once, the existing one not empty: the verdict is `same` exactly
-- when the two give every server the same version, that is, when each is below the other.
pub same_iff :
    (incoming existing : VersionVector)
    → IsDistinct incoming
    → IsDistinct existing
    → existing ≢ []
    → (check_conflict_version incoming existing ≡ same)
      ↔ (Le existing incoming × Le incoming existing)
unfolding check_conflict_version
same_iff incoming [] dv dw ne = absurd (ne refl)
same_iff [] (q ∷ w) dv dw ne = (λ h. cc, λ (a, b). absurd (not-Le-nil q w a))
same_iff (p ∷ v) (q ∷ w) dv dw ne = same_iff_cons p q v w dv dw

-- An incoming vector with entries that lacks a server of the existing one is reported as a
-- conflict, even where it lies below the existing one and so is plainly older.
pub check_conflict_version-missing :
    (incoming existing : VersionVector) (s : Text) (n : ℕ)
    → incoming ≢ []
    → lookup s incoming ≡ none
    → lookup s existing ≡ some n
    → check_conflict_version incoming existing ≡ conflict
unfolding reference misses
check_conflict_version-missing incoming [] s n ne a e = unfold lookup in cc
check_conflict_version-missing [] (q ∷ w) s n ne a e = absurd (ne refl)
check_conflict_version-missing (p ∷ v) (q ∷ w) s n ne a e = rw check_conflict_version-eq-reference (
    let unknown : contains (keys (p ∷ v)) s ≡ false = not_contains (p ∷ v) s a in
    let m : misses (keys (p ∷ v)) (q ∷ w) ≡ true =
      any-In (λ x. not (contains (keys (p ∷ v)) x.0)) (In-of_lookup s (q ∷ w) e) (rw unknown) in
    ground arith)
  where
    not_contains : (u : VersionVector) (t : Text) → lookup t u ≡ none → contains (keys u) t ≡ false
    not_contains u t h = elim (Bool-cases (contains (keys u) t)) [
      | inl c ↦ let (k, f) = lookup_of_contains t u c in cc
      | inr c ↦ c
    ]
