-- ===== src/Common/Int.antt =====
-- Signed integers over the native numbers, as far as the node counter needs them.
use Prim.Native.Nat.{ℕ, zero, suc, ◌-◌, ◌^◌}
use mathlib.Core.Path.{◌≡◌, refl}
use cs739_cloud_native.Common.Tests.{leb, if◌then◌else◌}

-- `negsuc n` is -(n + 1).
pub data ℤ : Type 0 where
  pos : ℕ → ℤ
  negsuc : ℕ → ℤ

-- x + 1
abbrev pub succ_ℤ : ℤ → ℤ
succ_ℤ (pos n) = pos (suc n)
succ_ℤ (negsuc zero) = pos 0
succ_ℤ (negsuc (suc n)) = negsuc n

-- x - 1
abbrev pub pred_ℤ : ℤ → ℤ
pred_ℤ (pos zero) = negsuc 0
pred_ℤ (pos (suc n)) = pos n
pred_ℤ (negsuc n) = negsuc (suc n)

pub pred_ℤ-succ_ℤ : (x : ℤ) → pred_ℤ (succ_ℤ x) ≡ x
pred_ℤ-succ_ℤ (pos n) = refl
pred_ℤ-succ_ℤ (negsuc zero) = refl
pred_ℤ-succ_ℤ (negsuc (suc n)) = refl

-- std::min of a signed number and a number that is not negative
abbrev pub min_ℤ : ℤ → ℕ → ℤ
min_ℤ (pos n) m = if leb n m then pos n else pos m
min_ℤ (negsuc n) m = negsuc n

-- the conversion to a 64-bit size_t, as a comparison with `size()` makes it
abbrev pub to_size_t : ℤ → ℕ
to_size_t (pos n) = n
to_size_t (negsuc n) = 2 ^ 64 - 1 - n
