-- ===== src/Common/Decimal.antt =====
-- Decimal digits of a number, as std::to_string and `<<` give them.
use Prim.Native.Nat.{ℕ, zero, suc, ◌+◌, ◌/◌, ◌%◌}
use mathlib.Core.List.{[], ◌∷◌, ◌++◌}
use cs739_cloud_native.Common.Tests.{ltb, if◌then◌else◌}
use cs739_cloud_native.Common.Strings.{Text}

-- The digits of a number, the last one added last. Twenty are enough for 64 bits.
unfoldable pub digits_of : ℕ → ℕ → Text
digits_of zero n = []
digits_of (suc fuel) n =
    let front = digits_of fuel (n / 10) in
    if ltb n 10 then (n + 48) ∷ [] else front ++ (n % 10 + 48) ∷ []

unfoldable pub print_u64 : ℕ → Text
unfolding digits_of
print_u64 n = digits_of 20 n
