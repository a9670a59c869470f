-- ===== src/Versions/Latest/Overtaken.antt =====
-- The verdict `earlier` of check_conflict_version (src/state_machine.cpp) in the order of vector
-- clocks: it does not ask whether the incoming vector has servers of its own.
use cs739_cloud_native.Common.{
  ℕ, ◌≤◌, ◌≡◌, ◌≢◌, ◌⊎◌, ◌↔◌, refl, none, some, [], ◌∷◌, arith, Text, keys, Bool-cases,
  Option-cases, inl, inr, lookup, IsDistinct,
}
use cs739_cloud_native.Versions.{VersionVector, earlier, latest, check_conflict_version}
use cs739_cloud_native.Versions.Reference.{has_less, misses}
use cs739_cloud_native.Versions.Order.{Le, Le_of_tests}
use cs739_cloud_native.Versions.Clocks.{misses-lookup, lookup-misses, has_less-lookup}
use cs739_cloud_native.Versions.Latest.Maximal.{Behind, Earlier, Earlier-iff}

-- The first vector has every server of the second one, at a version that is not higher.
abbrev pub NowhereAhead : VersionVector → VersionVector → Type 0
NowhereAhead v w =
    (s : Text) (n : ℕ) → lookup s w ≡ some n → (m : ℕ) × (lookup s v ≡ some m) × (m ≤ n)

Behind-not-Le : (v w : VersionVector) → Behind v w → ¬ Le w v
Behind-not-Le v w h k =
    let (m, e, p) = k h.at h.high h.higher in
    let q : m ≡ h.low = let lower = h.lower in ground (arith, e, lower) in
    let rises = h.rises in absurd (omega (arith, p, q, rises))

Behind-of_Le :
    (v w : VersionVector) → IsDistinct v → IsDistinct w → NowhereAhead v w → ¬ Le w v → Behind v w
Behind-of_Le v w dv dw ahead above = elim (Bool-cases (has_less v w)) [
  | inl less ↦
      let (s, n, m, low, high, rises) = has_less-lookup v w dv dw less in
      record {
        nowhere_ahead = ahead;
        at = s;
        low = n;
        high = m;
        lower = low;
        higher = high;
        rises = rises;
      }
  | inr level ↦ absurd (
      above (
        Le_of_tests w v
          (elim (Bool-cases (misses (keys v) w)) [
            | inr all ↦ all
            | inl lacks ↦
                let (s, n, there, gone) = misses-lookup v w dw lacks in
                let (m, e, _) = ahead s n there in absurd (ground (arith, gone, e))
          ])
          level))
]

-- For vectors that name each server once, neither of them empty: the verdict is `earlier` exactly
-- when the incoming vector has every server of the existing one at the same or a lower version, and
-- one of them at a lower version. What other servers the incoming vector has does not count, so
-- that it may be concurrent.
pub earlier_iff :
    (incoming existing : VersionVector)
    → IsDistinct incoming
    → IsDistinct existing
    → incoming ≢ []
    → existing ≢ []
    → (check_conflict_version incoming existing ≡ earlier)
      ↔ (NowhereAhead incoming existing × ¬ Le existing incoming)
earlier_iff [] existing dv dw some_in some_there = absurd (some_in refl)
earlier_iff (p ∷ v) [] dv dw some_in some_there = absurd (some_there refl)
earlier_iff (p ∷ v) (q ∷ w) dv dw some_in some_there =
    let described = Earlier-iff p q v w dv dw in
    (
      λ h. let b = described.0 h in (b.nowhere_ahead, Behind-not-Le (p ∷ v) (q ∷ w) b),
      λ (ahead, above). described.1 (Behind-of_Le (p ∷ v) (q ∷ w) dv dw ahead above),
    )

-- The second vector is later; or it is concurrent, and lacks a server of the first one.
abbrev pub Overtakes : VersionVector → VersionVector → Type 0
Overtakes v w =
    (Le v w × ¬ Le w v)
    ⊎ (¬ Le v w × ¬ Le w v × (s : Text) × (n : ℕ) × (lookup s v ≡ some n) × (lookup s w ≡ none))

pub Earlier-Overtakes :
    (v w : VersionVector) → IsDistinct v → IsDistinct w → v ≢ [] → Earlier v w → Overtakes v w
Earlier-Overtakes [] w dv dw entries h = absurd (entries refl)
Earlier-Overtakes (p ∷ v) [] dv dw entries h =
    absurd (let e : latest ≡ earlier = unfold check_conflict_version in h in ground (arith, e))
Earlier-Overtakes (p ∷ v) (q ∷ w) dv dw entries h =
    let b = (Earlier-iff p q v w dv dw).0 h in
    let above = Behind-not-Le (p ∷ v) (q ∷ w) b in
    elim (Bool-cases (misses (keys (q ∷ w)) (p ∷ v))) [
      | inl lacks ↦
          let (s, n, there, gone) = misses-lookup (q ∷ w) (p ∷ v) dv lacks in
          inr (
            λ k. let (m, e, _) = k s n there in absurd (ground (arith, gone, e)),
            above,
            s,
            n,
            there,
            gone,
          )
      | inr all ↦ inl (
        λ s n e. elim (Option-cases (lookup s (q ∷ w))) [
          | inr (k, f) ↦
              let (m, g, x) = b.nowhere_ahead s k f in
              let same : m ≡ n = ground (arith, e, g) in (k, f, omega (arith, x, same))
          | inl gone ↦
              absurd (let l = lookup-misses (q ∷ w) (p ∷ v) s n e gone in ground (arith, l, all))
        ],
        above,
      )
    ]
