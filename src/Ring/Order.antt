-- ===== src/Ring/Order.antt =====
-- The order of the entries of the map (src/consistent_hashing_ring.cpp), and what `lower_bound`
-- finds.
use cs739_cloud_native.Common.{
  ℕ, ◌≤◌, ◌<◌, ◌≡◌, refl, none, some, List, [], ◌∷◌, ◌++◌, arith, ltb, ◌==◌, All, Text, Bool-cases,
  inl, inr,
}
use cs739_cloud_native.Ring.{Slot, size_mod, place, erase_at, lower_bound}

-- Positions rise strictly along the list.
abbrev pub IsSorted : List Slot → Type 0
IsSorted [] = Unit {0}
IsSorted (e ∷ r) = All (λ x. e.0 < x.0) r × IsSorted r

-- Positions are values of size_t.
abbrev pub InRange : List Slot → Type 0
InRange r = All (λ e. e.0 < size_mod) r

module _ (P : Slot → Type 0) where
  pub All-append : (a b : List Slot) → All P (a ++ b) → All P a × All P b
  All-append [] b h = (tt, h)
  All-append (e ∷ a) b h = let (x, y) = All-append a b h.1 in ((h.0, x), y)

  pub All-place :
      (p : ℕ) (n : Text) (r : List Slot) → ((m : Text) → P (p, m)) → All P r → All P (place p n r)
  unfolding place
  All-place p n [] h k = (h n, tt)
  All-place p n ((q, m) ∷ r) h k = elim (Bool-cases (ltb p q)) [
    | inl lt ↦ rw lt (h n, k)
    | inr ge ↦ elim (Bool-cases (p == q)) [
      | inl eq ↦ let e : p ≡ q = ground arith in rw (ge, eq) (rw (← e) (h n), k.1)
      | inr ne ↦ rw (ge, ne) (k.0, All-place p n r h k.1)
    ]
  ]

  pub All-erase_at : (p : ℕ) (r : List Slot) → All P r → All P (erase_at p r)
  unfolding erase_at
  All-erase_at p [] k = tt
  All-erase_at p ((q, m) ∷ r) k = elim (Bool-cases (p == q)) [
    | inl eq ↦ rw eq k.1
    | inr ne ↦ rw ne (k.0, All-erase_at p r k.1)
  ]

pub All-mono : (P Q : Slot → Type 0) (r : List Slot) → ((e : Slot) → P e → Q e) → All P r → All Q r
All-mono P Q [] f h = tt
All-mono P Q (e ∷ r) f h = (f e h.0, All-mono P Q r f h.1)

pub place-IsSorted : (p : ℕ) (n : Text) (r : List Slot) → IsSorted r → IsSorted (place p n r)
unfolding place
place-IsSorted p n [] h = (tt, tt)
place-IsSorted p n ((q, m) ∷ r) h = elim (Bool-cases (ltb p q)) [
  | inl lt ↦
      let l : p < q = ground arith in
      rw lt ((l, All-mono (λ x. q < x.0) (λ x. p < x.0) r (λ e k. omega arith) h.0), h)
  | inr ge ↦ elim (Bool-cases (p == q)) [
    | inl eq ↦ rw (ge, eq) h
    | inr ne ↦
        let l : q < p = ground arith in
        rw (ge, ne) (All-place (λ x. q < x.0) p n r (λ _. l) h.0, place-IsSorted p n r h.1)
  ]
]

pub erase_at-IsSorted : (p : ℕ) (r : List Slot) → IsSorted r → IsSorted (erase_at p r)
unfolding erase_at
erase_at-IsSorted p [] h = tt
erase_at-IsSorted p ((q, m) ∷ r) h = elim (Bool-cases (p == q)) [
  | inl eq ↦ rw eq h.1
  | inr ne ↦ rw ne (All-erase_at (λ x. q < x.0) p r h.0, erase_at-IsSorted p r h.1)
]

-- An entry of a sorted list lies above those before it and below those after it.
pub IsSorted-split :
    (a : List Slot) (x : Slot) (b : List Slot)
    → IsSorted (a ++ x ∷ b)
    → All (λ e. e.0 < x.0) a × All (λ e. x.0 < e.0) b
IsSorted-split [] x b h = (tt, h.0)
IsSorted-split (e ∷ a) x b h =
    let (l, r) = IsSorted-split a x b h.1 in
    let up = All-append (λ y. e.0 < y.0) a (x ∷ b) h.0 in ((up.1.0, l), r)

pub lower_bound-skip :
    (i : ℕ) (a b : List Slot) → All (λ e. e.0 < i) a → lower_bound i (a ++ b) ≡ lower_bound i b
unfolding lower_bound
lower_bound-skip i [] b h = refl
lower_bound-skip i (e ∷ a) b h = ground (arith, lower_bound-skip i a b h.1)

pub lower_bound-All_below : (i : ℕ) (a : List Slot) → All (λ e. e.0 < i) a → lower_bound i a ≡ none
unfolding lower_bound
lower_bound-All_below i [] h = refl
lower_bound-All_below i (e ∷ a) h = ground (arith, lower_bound-All_below i a h.1)

pub lower_bound-hit : (i : ℕ) (e : Slot) (r : List Slot) → i ≤ e.0 → lower_bound i (e ∷ r) ≡ some e
unfolding lower_bound
lower_bound-hit i e r h = ground arith
