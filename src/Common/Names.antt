-- ===== src/Common/Names.antt =====
-- Lists of distinct names: how many fit into another list, and when two of them meet.
use Prim.Native.Nat.{suc, ◌+◌, ◌≤◌, ◌<◌}
use mathlib.Core.Path.{◌≡◌}
use mathlib.Core.Logic.{inl, inr}
use mathlib.Core.Bool.{true, false}
use mathlib.Core.List.{List, [], ◌∷◌, ◌++◌}
use native.Mathlib.Omega.{arith}
use cs739_cloud_native.Common.Tests.{if◌then◌else◌, Bool-cases}
use cs739_cloud_native.Common.Lists.{length, length-append, any, In, In-of_any}
use cs739_cloud_native.Common.Strings.{
  Text, text_eq, text_eq_iff, text_eq_refl, contains, contains-append, AllDistinct,
}

without : Text → List Text → List Text
without t [] = []
without t (x ∷ xs) = if text_eq x t then xs else x ∷ without t xs

length-without :
    (t : Text) (xs : List Text) → contains xs t ≡ true → suc (length (without t xs)) ≡ length xs
unfolding without contains
length-without t [] c = absurd (ground (arith, c))
length-without t (x ∷ xs) c = ground (arith, length-without t xs)

contains-without :
    (t s : Text) (xs : List Text)
    → text_eq t s ≡ false
    → contains xs s ≡ true
    → contains (without t xs) s ≡ true
unfolding without contains
contains-without t s [] n c = absurd (ground (arith, c))
contains-without t s (x ∷ xs) n c =
    ground (arith, contains-without t s xs n, text_eq_iff x t, text_eq_iff x s, text_eq_iff t s)

-- Distinct names that all stand in a list are no more than it has.
pub fits :
    (names xs : List Text)
    → AllDistinct names
    → ((t : Text) → contains names t ≡ true → contains xs t ≡ true)
    → length names ≤ length xs
unfolding contains
fits [] xs d h = omega arith
fits (n ∷ names) xs d h =
    let first : contains xs n ≡ true = h n (ground (arith, text_eq_refl n)) in
    let rest = fits names (without n xs) d.1 (λ t c.
      contains-without n t xs (ground (arith, text_eq_iff n t, d.0, c))
        (h t (ground (arith, c)))) in
    omega (arith, length-without n xs first)

append-distinct :
    (xs ys : List Text)
    → AllDistinct xs
    → AllDistinct ys
    → any (contains ys) xs ≡ false
    → AllDistinct (xs ++ ys)
unfolding contains
append-distinct [] ys a b h = b
append-distinct (x ∷ xs) ys a b h =
    (ground (arith, contains-append xs ys x, a.0), append-distinct xs ys a.1 b (ground arith))

contains-of_In : (t : Text) (xs : List Text) → In t xs → contains xs t ≡ true
unfolding contains
contains-of_In t [] i = elim i [ ]
contains-of_In t (x ∷ xs) In.here = ground (arith, text_eq_refl t)
contains-of_In t (x ∷ xs) (In.there i) = ground (arith, contains-of_In t xs i)

-- Two lists of distinct names from a list that is too short for both have a name in common.
pub meet :
    (xs ys all : List Text)
    → AllDistinct xs
    → AllDistinct ys
    → ((t : Text) → contains xs t ≡ true → contains all t ≡ true)
    → ((t : Text) → contains ys t ≡ true → contains all t ≡ true)
    → length all < length xs + length ys
    → (t : Text) × (contains xs t ≡ true) × (contains ys t ≡ true)
meet xs ys all dx dy hx hy short = elim (Bool-cases (any (contains ys) xs)) [
  | inl some_one ↦
      let (t, i, c) = In-of_any (contains ys) xs some_one in (t, contains-of_In t xs i, c)
  | inr apart ↦
      let whole =
        fits (xs ++ ys) all (append-distinct xs ys dx dy apart)
          (λ t c. ground (arith, contains-append xs ys t, hx t, hy t, c)) in
      absurd (omega (arith, length-append xs ys))
]
