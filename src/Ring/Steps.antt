-- ===== src/Ring/Steps.antt =====
-- The steps by `lower_bound` through a map in order (src/consistent_hashing_ring.cpp).
use cs739_cloud_native.Common.{
  ◌+◌, ◌%◌, ◌≤◌, ◌<◌, ◌≡◌, refl, sym, ap, ◌∙◌, subst, none, some, List, [], ◌∷◌, ◌++◌, arith,
}
use native.Mathlib.Decide.{dec_lt}
use mathlib.Core.List.{append_assoc}
use cs739_cloud_native.Ring.{Slot, size_mod, lower_bound, seek, advance}
use cs739_cloud_native.Ring.Order.{
  IsSorted, InRange, All-append, All-mono, IsSorted-split, lower_bound-skip, lower_bound-hit,
}
use cs739_cloud_native.Ring.Collect.{Follows}

-- One step clockwise from an entry of a sorted map is a step to the next entry, and from the last
-- one to the first.
module _ (first : Slot) (slots : List Slot) (sorted : IsSorted slots) (small : InRange slots) where
  pub advance-next :
      (a : List Slot) (x y : Slot) (b : List Slot)
      → a ++ (x ∷ (y ∷ b)) ≡ slots
      → advance first slots x ≡ y
  unfolding advance seek lower_bound
  advance-next a x y b e =
      let all : IsSorted (a ++ (x ∷ (y ∷ b))) = subst IsSorted (sym e) sorted in
      let (low, high) = IsSorted-split a x (y ∷ b) all in
      let range = All-append (λ z. z.0 < size_mod) a (x ∷ (y ∷ b)) (subst InRange (sym e) small) in
      let i : (x.0 + 1) % size_mod ≡ x.0 + 1 = omega arith in
      let found : lower_bound (x.0 + 1) slots ≡ some y =
        subst (λ r. lower_bound (x.0 + 1) r ≡ some y) e
          (lower_bound-skip (x.0 + 1) a (x ∷ (y ∷ b))
              (All-mono (λ z. z.0 < x.0) (λ z. z.0 < x.0 + 1) a (λ z k. omega arith) low)
            ∙ ground arith) in
      rw (i, found) refl

  pub advance-last :
      (a : List Slot) (x : Slot) (rest : List Slot)
      → a ++ (x ∷ []) ≡ slots
      → first ∷ rest ≡ slots
      → advance first slots x ≡ first
  unfolding advance seek lower_bound
  advance-last a x rest e h =
      let all : IsSorted (a ++ (x ∷ [])) = subst IsSorted (sym e) sorted in
      let (low, _) = IsSorted-split a x [] all in
      let range = All-append (λ z. z.0 < size_mod) a (x ∷ []) (subst InRange (sym e) small) in
      elim (dec_lt (x.0 + 1) size_mod) [
        | yes fits ↦
            let i : (x.0 + 1) % size_mod ≡ x.0 + 1 = omega arith in
            let found : lower_bound (x.0 + 1) slots ≡ none =
              subst (λ r. lower_bound (x.0 + 1) r ≡ none) e
                (lower_bound-skip (x.0 + 1) a (x ∷ [])
                    (All-mono (λ z. z.0 < x.0) (λ z. z.0 < x.0 + 1) a (λ z k. omega arith) low)
                  ∙ ground arith) in
            rw (i, found) refl
        | no wraps ↦
            let i : (x.0 + 1) % size_mod ≡ 0 = omega arith in
            let found : lower_bound 0 slots ≡ some first =
              subst (λ r. lower_bound 0 r ≡ some first) h
                (lower_bound-hit 0 first rest (omega arith)) in
            rw (i, found) refl
      ]

  shift : (a : List Slot) (x : Slot) (b : List Slot) → (a ++ x ∷ []) ++ b ≡ a ++ (x ∷ b)
  shift a x b = append_assoc a (x ∷ []) b

  -- From an entry before `begin` the walk goes through the entries up to it.
  pub Follows-before :
      (a : List Slot) (x : Slot) (mid : List Slot) (s : Slot) (tail : List Slot)
      → a ++ (x ∷ (mid ++ s ∷ tail)) ≡ slots
      → Follows first slots s.0 x mid
  Follows-before a x [] s tail e = ap (λ (z : Slot). z.0) (advance-next a x s tail e)
  Follows-before a x (y ∷ mid) s tail e =
      let e' : (a ++ x ∷ []) ++ (y ∷ (mid ++ s ∷ tail)) ≡ slots = shift a x _ ∙ e in
      let all : IsSorted ((a ++ x ∷ []) ++ (y ∷ (mid ++ s ∷ tail))) =
        subst IsSorted (sym e') sorted in
      let (_, high) = IsSorted-split (a ++ x ∷ []) y (mid ++ s ∷ tail) all in
      let up = All-append (λ z. y.0 < z.0) mid (s ∷ tail) high in
      (
        advance-next a x y (mid ++ s ∷ tail) e,
        omega arith,
        Follows-before (a ++ x ∷ []) y mid s tail e',
      )

  -- From an entry at or after `begin` it goes to the end of the map, and then on from its start.
  pub Follows-after :
      (a : List Slot) (x : Slot) (b before : List Slot) (s : Slot) (tail rest : List Slot)
      → a ++ (x ∷ b) ≡ slots
      → before ++ (s ∷ tail) ≡ slots
      → first ∷ rest ≡ slots
      → s.0 ≤ x.0
      → Follows first slots s.0 x (b ++ before)
  Follows-after a x (y ∷ b) before s tail rest e f g h =
      let e' : (a ++ x ∷ []) ++ (y ∷ b) ≡ slots = shift a x _ ∙ e in
      let all : IsSorted (a ++ (x ∷ (y ∷ b))) = subst IsSorted (sym e) sorted in
      let (_, high) = IsSorted-split a x (y ∷ b) all in
      (
        advance-next a x y b e,
        omega arith,
        Follows-after (a ++ x ∷ []) y b before s tail rest e' f g (omega arith),
      )
  Follows-after a x [] [] s tail rest e f g h =
      let eq : first ≡ s = let q : first ∷ rest ≡ s ∷ tail = g ∙ sym f in cc in
      ap (λ (z : Slot). z.0) (advance-last a x rest e g ∙ eq)
  Follows-after a x [] (z ∷ before) s tail rest e f g h =
      let eq : first ≡ z = let q : first ∷ rest ≡ z ∷ (before ++ s ∷ tail) = g ∙ sym f in cc in
      let all : IsSorted (z ∷ (before ++ s ∷ tail)) = subst IsSorted (sym f) sorted in
      let up = All-append (λ y. z.0 < y.0) before (s ∷ tail) all.0 in
      (advance-last a x rest e g ∙ eq, omega arith, Follows-before [] z before s tail f)
