-- ===== src/Tests/Clocks.antt =====
-- Runs of check_conflict_version (src/state_machine.cpp) on vectors up to the order of their pairs.
use cs739_cloud_native.Common.{◌≡◌, ◌≢◌, ◌↔◌, refl, ap, [], ◌∷◌, arith, text, IsDistinct}
use cs739_cloud_native.Versions.{VersionVector, earlier, same, latest}
use mathlib.Core.Quot
use cs739_cloud_native.Versions.Clocks.{Clock, zero_clock, verdict, verdict_iff}
use cs739_cloud_native.Tests.Vectors.{comparison, low}

-- {A: 1, B: 2} in the other order, and both as clocks
abbrev turned : VersionVector
turned = (text "B", 2) ∷ (text "A", 1) ∷ []

clocks : Unit {0}
unfolding comparison verdict
clocks = tt

low_once : IsDistinct low
unfolding clocks
low_once = (refl, (refl, tt))

turned_once : IsDistinct turned
unfolding clocks
turned_once = (refl, (refl, tt))

abbrev low_clock : Clock
low_clock = Quot.mk (low, low_once)

abbrev turned_clock : Clock
turned_clock = Quot.mk (turned, turned_once)

turned_is_not_zero : turned_clock ≢ zero_clock
unfolding clocks
turned_is_not_zero e = let f : earlier ≡ latest = ap (verdict zero_clock) e in ground (arith, f)

-- The verdict does not see the order.
same_in_any_order : verdict low_clock turned_clock ≡ same
unfolding clocks
same_in_any_order = refl

verdict_iff_example : (verdict low_clock turned_clock ≡ same) ↔ (low_clock ≡ turned_clock)
verdict_iff_example = verdict_iff low_clock turned_clock turned_is_not_zero
