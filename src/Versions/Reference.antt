-- ===== src/Versions/Reference.antt =====
-- An independent description of `check_conflict_version` (src/state_machine.cpp).
use cs739_cloud_native.Common.{
  ℕ, ◌≡◌, refl, Bool, true, false, not, ◌&&◌, ◌||◌, Option, none, some, List, [], ◌∷◌, arith, ltb,
  if◌then◌else◌, any, Text, text_eq, contains, keys, Bool-cases, inl, inr,
}
use cs739_cloud_native.Versions.{
  VersionVector, Verdict, earlier, same, latest, conflict, compare_pair, compare_pairs, settle,
  check_conflict_version,
}

-- some pair of the second vector has the server of `p` and a higher version
abbrev pub below : Text × ℕ → VersionVector → Bool
below p existing = any (λ q. text_eq p.0 q.0 && ltb p.1 q.1) existing

abbrev pub above : Text × ℕ → VersionVector → Bool
above p existing = any (λ q. text_eq p.0 q.0 && ltb q.1 p.1) existing

-- some server of the first vector has a lower version than in the second
unfoldable pub has_less : VersionVector → VersionVector → Bool
has_less incoming existing = any (λ p. below p existing) incoming

unfoldable pub has_greater : VersionVector → VersionVector → Bool
has_greater incoming existing = any (λ p. above p existing) incoming

-- some server of the vector is not among the names
unfoldable pub misses : List Text → VersionVector → Bool
misses names existing = any (λ q. not (contains names q.0)) existing

-- what the loop variable `res` says of the comparisons so far
abbrev seen : Bool → Bool → Option Verdict
seen false false = some same
seen true false = some earlier
seen false true = some latest
seen true true = none

compare_pair-seen :
    (names : List Text) (p : Text × ℕ) (existing : VersionVector) (l g : Bool) (res : Verdict)
    → seen l g ≡ some res
    → compare_pair names p existing res ≡ (
        if misses names existing
        then none
        else seen (l || below p existing) (g || above p existing))
unfolding compare_pair misses
compare_pair-seen names p [] l g res h = ground arith
compare_pair-seen names p (q ∷ existing) l g res h = ground (
  arith,
  compare_pair-seen names p existing l g res,
  compare_pair-seen names p existing true g earlier,
  compare_pair-seen names p existing l true latest,
)

compare_pairs-seen :
    (names : List Text) (incoming existing : VersionVector) (l g : Bool) (res : Verdict)
    → misses names existing ≡ false
    → seen l g ≡ some res
    → compare_pairs names incoming existing res
      ≡ seen (l || has_less incoming existing) (g || has_greater incoming existing)
unfolding compare_pairs has_less has_greater
compare_pairs-seen names [] existing l g res m h = ground arith
compare_pairs-seen names (p ∷ incoming) existing l g res m h = ground (
  arith,
  compare_pair-seen names p existing l g res h,
  compare_pairs-seen names incoming existing false false same m refl,
  compare_pairs-seen names incoming existing true false earlier m refl,
  compare_pairs-seen names incoming existing false true latest m refl,
)

compare_pairs-misses :
    (names : List Text) (p : Text × ℕ) (incoming existing : VersionVector)
    → misses names existing ≡ true
    → compare_pairs names (p ∷ incoming) existing same ≡ none
unfolding compare_pairs
compare_pairs-misses names p incoming existing m =
    ground (arith, compare_pair-seen names p existing false false same refl)

unfoldable pub is_empty : VersionVector → Bool
is_empty [] = true
is_empty (p ∷ v) = false

-- The verdict by independent tests: first the empty vectors, then a server that the incoming vector
-- lacks or versions that differ both ways, then a lower one, then a higher one or a new server.
unfoldable pub reference : VersionVector → VersionVector → Verdict
unfolding is_empty
reference incoming existing =
    if is_empty existing
    then latest
    else if is_empty incoming
    then earlier
    else if misses (keys incoming) existing
        || has_less incoming existing && has_greater incoming existing
    then conflict
    else if has_less incoming existing
    then earlier
    else if has_greater incoming existing || misses (keys existing) incoming
    then latest
    else same

any-keys :
    (names : List Text) (v : VersionVector)
    → any (λ s. not (contains names s)) (keys v) ≡ misses names v
unfolding keys misses
any-keys names [] = refl
any-keys names ((s, n) ∷ v) = ground (arith, any-keys names v)

settle-seen :
    (incoming existing : VersionVector) (l g : Bool)
    → elim (seen l g) [ none ↦ conflict | some res ↦ settle incoming existing res ] ≡ (
        if l && g
        then conflict
        else if l
        then earlier
        else if g || misses (keys existing) incoming
        then latest
        else same)
unfolding settle
settle-seen incoming existing l g = ground (arith, any-keys (keys existing) incoming)

-- The nested loops with their early returns, and the loop after them, compute the reference verdict
-- on every pair of vectors.
pub check_conflict_version-eq-reference :
    (incoming existing : VersionVector)
    → check_conflict_version incoming existing ≡ reference incoming existing
unfolding check_conflict_version reference
check_conflict_version-eq-reference incoming [] = refl
check_conflict_version-eq-reference [] (q ∷ existing) = refl
check_conflict_version-eq-reference (p ∷ incoming) (q ∷ existing) =
    elim (Bool-cases (misses (keys (p ∷ incoming)) (q ∷ existing))) [
      | inl m ↦ rw (compare_pairs-misses _ p incoming (q ∷ existing) m, check_conflict_version, m)
      | inr m ↦
          rw
            (
              compare_pairs-seen (keys (p ∷ incoming)) (p ∷ incoming) (q ∷ existing) false false
                  same m refl,
              check_conflict_version,
              m,
            )
            (settle-seen (p ∷ incoming) (q ∷ existing) _ _)
    ]
