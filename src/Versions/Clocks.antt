-- ===== src/Versions/Clocks.antt =====
-- Version vectors (src/state_machine.cpp) up to the order of their pairs: what
-- check_conflict_version says is a matter of the versions of the servers alone.
use mathlib.Core.Quot
use mathlib.Core.Quot.{Quot, Quot-set}
use cs739_cloud_native.Common.{
  ℕ, ◌<◌, ◌≡◌, ◌≢◌, ◌↔◌, refl, sym, ap, subst, ◌∙◌, Bool, true, false, none, some, [], ◌∷◌, arith,
  any-In, In-of_any, Text, text_eq_iff, text_eq_refl, contains, keys, Bool-cases, Option-cases, inl,
  inr, lookup, In-of_lookup, lookup_of_contains, contains_of_lookup, lookup_of_In, IsDistinct,
}
use cs739_cloud_native.Versions.{VersionVector, Verdict, same, check_conflict_version}
use cs739_cloud_native.Versions.Reference.{
  has_less, has_greater, misses, reference, is_empty, check_conflict_version-eq-reference,
}
use cs739_cloud_native.Versions.Order.{Le, Le-refl, same_iff, has_greater-has_less}

-- Two vectors have the same version of every server.
abbrev pub SameVersions : VersionVector → VersionVector → Type 0
SameVersions v w = (s : Text) → lookup s v ≡ lookup s w

bool_ext : (a b : Bool) → (a ≡ true → b ≡ true) → (b ≡ true → a ≡ true) → a ≡ b
bool_ext true b f g = sym (f refl)
bool_ext false true f g = g refl
bool_ext false false f g = refl

pub misses-lookup :
    (v w : VersionVector)
    → IsDistinct w
    → misses (keys v) w ≡ true
    → (s : Text) × (n : ℕ) × (lookup s w ≡ some n) × (lookup s v ≡ none)
unfolding misses
misses-lookup v w dw h =
    let (q, i, t) = In-of_any _ w h in
    let unknown : contains (keys v) q.0 ≡ false = ground (arith, t) in
    (
      q.0,
      q.1,
      lookup_of_In q.0 w dw i,
      elim (Option-cases (lookup q.0 v)) [
        | inl gone ↦ gone
        | inr (n, there) ↦
            absurd (let c = contains_of_lookup q.0 v there in ground (arith, c, unknown))
      ],
    )

pub lookup-misses :
    (v w : VersionVector) (s : Text) (n : ℕ)
    → lookup s w ≡ some n
    → lookup s v ≡ none
    → misses (keys v) w ≡ true
unfolding misses
lookup-misses v w s n h absent =
    any-In _ (In-of_lookup s w h) (elim (Bool-cases (contains (keys v) s)) [
      | inl known ↦
          absurd (let (m, there) = lookup_of_contains s v known in ground (arith, absent, there))
      | inr unknown ↦ rw unknown refl
    ])

pub has_less-lookup :
    (v w : VersionVector)
    → IsDistinct v
    → IsDistinct w
    → has_less v w ≡ true
    → (s : Text) × (n : ℕ) × (m : ℕ) × (lookup s v ≡ some n) × (lookup s w ≡ some m) × (n < m)
unfolding has_less
has_less-lookup v w dv dw h =
    let (p, i, f) = In-of_any _ v h in
    let (q, j, g) = In-of_any _ w f in
    let e : p.0 ≡ q.0 = ground (arith, g, text_eq_iff p.0 q.0) in
    (p.0, p.1, q.1, lookup_of_In p.0 v dv i, rw e (lookup_of_In q.0 w dw j), ground (arith, g))

lookup-has_less :
    (v w : VersionVector) (s : Text) (n m : ℕ)
    → lookup s v ≡ some n
    → lookup s w ≡ some m
    → n < m
    → has_less v w ≡ true
unfolding has_less
lookup-has_less v w s n m h k l =
    any-In _ (In-of_lookup s v h)
      (any-In _ (In-of_lookup s w k) (ground (arith, text_eq_refl s, l)))

is_empty-lookup : (v w : VersionVector) → SameVersions v w → is_empty v ≡ true → is_empty w ≡ true
unfolding is_empty lookup
is_empty-lookup [] [] e h = refl
is_empty-lookup [] ((s, n) ∷ w) e h = absurd (let f = e s in ground (arith, f, text_eq_refl s))
is_empty-lookup (p ∷ v) w e h = absurd (ground (arith, h))

-- The three tests of the reference on the vectors of servers and versions.
module _ (v v' w w' : VersionVector) (dv : IsDistinct v) (dw : IsDistinct w)
    (ev : SameVersions v v') (ew : SameVersions w w') where
  misses_same : misses (keys v) w ≡ true → misses (keys v') w' ≡ true
  misses_same h =
      let (s, n, there, gone) = misses-lookup v w dw h in
      lookup-misses v' w' s n (sym (ew s) ∙ there) (sym (ev s) ∙ gone)

  has_less_same : has_less v w ≡ true → has_less v' w' ≡ true
  has_less_same h =
      let (s, n, m, low, high, less) = has_less-lookup v w dv dw h in
      lookup-has_less v' w' s n m (sym (ev s) ∙ low) (sym (ew s) ∙ high) less

-- The verdict is the same for vectors that name each server once, with the same versions in any
-- order.
pub check_conflict_version-SameVersions :
    (v v' w w' : VersionVector)
    → IsDistinct v
    → IsDistinct v'
    → IsDistinct w
    → IsDistinct w'
    → SameVersions v v'
    → SameVersions w w'
    → check_conflict_version v w ≡ check_conflict_version v' w'
check_conflict_version-SameVersions v v' w w' dv dv' dw dw' ev ew =
    let ev' : SameVersions v' v = λ s. sym (ev s) in
    let ew' : SameVersions w' w = λ s. sym (ew s) in
    let empty_v =
      bool_ext (is_empty v) (is_empty v') (is_empty-lookup v v' ev) (is_empty-lookup v' v ev') in
    let empty_w =
      bool_ext (is_empty w) (is_empty w') (is_empty-lookup w w' ew) (is_empty-lookup w' w ew') in
    let lacks =
      bool_ext (misses (keys v) w) (misses (keys v') w') (misses_same v v' w w' dv dw ev ew)
        (misses_same v' v w' w dv' dw' ev' ew') in
    let more =
      bool_ext (misses (keys w) v) (misses (keys w') v') (misses_same w w' v v' dw dv ew ev)
        (misses_same w' w v' v dw' dv' ew' ev') in
    let less =
      bool_ext (has_less v w) (has_less v' w') (has_less_same v v' w w' dv dw ev ew)
        (has_less_same v' v w' w dv' dw' ev' ew') in
    let less' =
      bool_ext (has_less w v) (has_less w' v') (has_less_same w w' v v' dw dv ew ev)
        (has_less_same w' w v' v dw' dv' ew' ev') in
    let greater : has_greater v w ≡ has_greater v' w' =
      has_greater-has_less v w ∙ (less' ∙ sym (has_greater-has_less v' w')) in
    let described : reference v w ≡ reference v' w' =
      unfold reference in rw (empty_v, empty_w, lacks, more, less, greater) refl in
    check_conflict_version-eq-reference v w
    ∙ (described ∙ sym (check_conflict_version-eq-reference v' w'))

-- A vector that names each server once.
abbrev pub Vector : Type 0
Vector = (v : VersionVector) × IsDistinct v

-- The abstract view: vectors up to the order of their pairs.
abbrev pub Clock : Type 0
Clock = Quot {α = Vector} (λ a b. SameVersions a.0 b.0)

-- The clock of no server.
abbrev pub zero_clock : Clock
zero_clock = Quot.mk ([], tt)

pub Verdict-set : IsSet Verdict
Verdict-set = hlevel

-- check_conflict_version of a clock with an existing vector, and of two clocks.
abbrev pub verdict_on : Vector → Clock → Verdict
verdict_on b =
    Quot.lift Verdict-set (λ (a : Vector). check_conflict_version a.0 b.0)
      (λ a a' e.
        check_conflict_version-SameVersions a.0 a'.0 b.0 b.0 a.1 a'.1 b.1 b.1 e (λ s. refl))

pub verdict_on-SameVersions :
    (b b' : Vector) → SameVersions b.0 b'.0 → (c : Clock) → verdict_on b c ≡ verdict_on b' c
verdict_on-SameVersions b b' e =
    Quot.ind (λ c. Verdict-set (verdict_on b c) (verdict_on b' c))
      (λ (a : Vector).
        check_conflict_version-SameVersions a.0 a.0 b.0 b'.0 a.1 a.1 b.1 b'.1 (λ s. refl) e)

unfoldable pub verdict : Clock → Clock → Verdict
verdict c d =
    Quot.lift Verdict-set (λ (b : Vector). verdict_on b c)
      (λ b b' e. verdict_on-SameVersions b b' e c) d

Le-antisym : (v w : VersionVector) → Le v w → Le w v → SameVersions v w
Le-antisym v w h k s = elim (Option-cases (lookup s v)) [
  | inl gone ↦ elim (Option-cases (lookup s w)) [
    | inl also ↦ gone ∙ sym also
    | inr (m, there) ↦ absurd (let (n, f, _) = k s m there in ground (arith, gone, f))
  ]
  | inr (n, there) ↦
      let (m, f, p) = h s n there in
      let (n', f', q) = k s m f in
      let e : n ≡ n' = ground (arith, there, f') in
      let e' : n ≡ m = omega (arith, p, q, e) in there ∙ (ap some e' ∙ sym f)
]

not_zero : (b : Vector) → Quot.mk b ≢ zero_clock → b.0 ≢ []
not_zero b apart e = apart (Quot.sound (λ s. ap (λ v. lookup s v) e))

verdict_self : (c : Clock) → c ≢ zero_clock → verdict c c ≡ same
unfolding verdict
verdict_self =
    Quot.ind (λ c. hlevel Verdict-set)
      (λ (a : Vector) apart.
        (same_iff a.0 a.0 a.1 a.1 (not_zero a apart)).1 (Le-refl a.0, Le-refl a.0))

verdict_equal : (c d : Clock) → d ≢ zero_clock → verdict c d ≡ same → c ≡ d
unfolding verdict
verdict_equal c = Quot.ind (λ d. hlevel Quot-set) (λ (b : Vector). go b c)
  where
    go :
        (b : Vector) (x : Clock)
        → Quot.mk b ≢ zero_clock
        → verdict x (Quot.mk b) ≡ same
        → x ≡ Quot.mk b
    go b =
        Quot.ind (λ x. hlevel Quot-set)
          (λ (a : Vector) apart h.
            let (up, down) = (same_iff a.0 b.0 a.1 b.1 (not_zero b apart)).0 h in
            Quot.sound (Le-antisym a.0 b.0 down up))

-- The verdict is that two vectors are the same exactly where they are equal as clocks, whatever the
-- order of their pairs, except that every vector is the latest beside an empty one.
pub verdict_iff : (c d : Clock) → d ≢ zero_clock → (verdict c d ≡ same) ↔ (c ≡ d)
verdict_iff c d apart = (
  verdict_equal c d apart,
  λ e.
      subst (λ x. verdict c x ≡ same) e
        (verdict_self c (subst (λ x. x ≢ zero_clock) (sym e) apart)),
)
