-- ===== src/Ring/Walk.antt =====
-- The walk of `getReplicasNodes` and `checkDataBelonging` (src/consistent_hashing_ring.cpp) by
-- repeated `lower_bound`, against the clockwise order of the entries.
use cs739_cloud_native.Common.{
  ℕ, suc, ◌≤◌, ◌<◌, ◌≡◌, refl, sym, ap, ap₂, ◌∙◌, subst, Bool, true, none, some, get_or, List, [],
  ◌∷◌, ◌++◌, arith, ltb, leb, All, filter, length, length-append, Text, contains, Bool-cases, inl,
  inr,
}
use native.Mathlib.Nat.{le_refl}
use mathlib.Core.List.{append-nil}
use cs739_cloud_native.Ring.{Slot, lower_bound, seek, replicas_of, owner_found}
use cs739_cloud_native.Ring.Order.{IsSorted, InRange, All-mono, lower_bound-skip, lower_bound-hit}
use cs739_cloud_native.Ring.Collect.{
  clockwise, owners, collect, Follows, gather-collect, search_owner-collect,
}
use cs739_cloud_native.Ring.Steps.{Follows-after}

none_below :
    (h : ℕ) (r : List Slot)
    → All (λ e. h ≤ e.0) r
    → (filter (λ e. ltb e.0 h) r ≡ []) × (filter (λ e. leb h e.0) r ≡ r)
none_below h [] a = (refl, refl)
none_below h (e ∷ r) a = ground (arith, none_below h r a.1)

filter-split :
    (h : ℕ) (r : List Slot)
    → IsSorted r
    → filter (λ e. ltb e.0 h) r ++ filter (λ e. leb h e.0) r ≡ r
filter-split h [] s = refl
filter-split h (e ∷ r) s = elim (Bool-cases (ltb e.0 h)) [
  | inl lt ↦ ground (arith, filter-split h r s.1)
  | inr ge ↦
      let up : All (λ x. h ≤ x.0) r =
        All-mono (λ x. e.0 < x.0) (λ x. h ≤ x.0) r (λ x k. ground arith) s.0 in
      ground (arith, none_below h r up)
]

All-filter :
    (P : Slot → Type 0) (p : Slot → Bool) (r : List Slot)
    → ((e : Slot) → p e ≡ true → P e)
    → All P (filter p r)
All-filter P p [] h = tt
All-filter P p (e ∷ r) h = elim (Bool-cases (p e)) [
  | inl y ↦ rw y (h e y, All-filter P p r h)
  | inr n ↦ rw n (All-filter P p r h)
]

-- Where the walk starts, and what it goes through: the clockwise order of the entries.
record Start (first : Slot) (slots : List Slot) (h : ℕ) : Type 0 where
  it : Slot
  es : List Slot
  starts : seek first slots h ≡ it
  order : clockwise h slots ≡ it ∷ es
  follows : Follows first slots it.0 it es

module _ (first : Slot) (rest : List Slot) (h : ℕ) (sorted : IsSorted (first ∷ rest))
    (small : InRange (first ∷ rest)) where
  abbrev all_slots : List Slot
  all_slots = first ∷ rest

  parts :
      (before after : List Slot)
      → filter (λ e. ltb e.0 h) all_slots ≡ before
      → filter (λ e. leb h e.0) all_slots ≡ after
      → (before ++ after ≡ all_slots) × All (λ e. e.0 < h) before × All (λ e. h ≤ e.0) after
  parts before after p q = (
    ap₂ ◌++◌ (sym p) (sym q) ∙ filter-split h all_slots sorted,
    subst (All (λ e. e.0 < h)) p
        (All-filter (λ e. e.0 < h) (λ e. ltb e.0 h) all_slots (λ e k. ground arith)),
    subst (All (λ e. h ≤ e.0)) q
        (All-filter (λ e. h ≤ e.0) (λ e. leb h e.0) all_slots (λ e k. ground arith)),
  )

  found :
      (before after : List Slot)
      → before ++ after ≡ all_slots
      → All (λ e. e.0 < h) before
      → lower_bound h all_slots ≡ lower_bound h after
  found before after e low =
      subst (λ r. lower_bound h r ≡ lower_bound h after) e (lower_bound-skip h before after low)

  start_at :
      (before after : List Slot)
      → filter (λ e. ltb e.0 h) all_slots ≡ before
      → filter (λ e. leb h e.0) all_slots ≡ after
      → Start first all_slots h
  unfolding seek
  start_at before [] p q =
      let (e, low, _) = parts before [] p q in
      let whole : before ≡ first ∷ rest = sym (append-nil before) ∙ e in
      let miss : lower_bound h all_slots ≡ none =
        found before [] e low ∙ unfold lower_bound in refl in
      record {
        it = first;
        es = rest ++ [];
        starts = ap (λ o. get_or o first) miss;
        order = unfold clockwise in ap₂ ◌++◌ q p ∙ whole ∙ ap (◌∷◌ first) (sym (append-nil rest));
        follows =
            Follows-after first all_slots sorted small [] first rest [] first rest rest refl refl
              refl (le_refl first.0);
      }
  start_at before (x ∷ after) p q =
      let (e, low, up) = parts before (x ∷ after) p q in
      let hit : lower_bound h all_slots ≡ some x =
        found before (x ∷ after) e low ∙ lower_bound-hit h x after up.0 in
      record {
        it = x;
        es = after ++ before;
        starts = ap (λ o. get_or o first) hit;
        order = unfold clockwise in ap₂ ◌++◌ q p;
        follows =
            Follows-after first all_slots sorted small before x after before x after rest e e refl
              (le_refl x.0);
      }

  start : Start first all_slots h
  start = start_at _ _ refl refl

  enough_fuel : length start.es < suc (length rest)
  unfolding clockwise
  enough_fuel =
      let low = filter (λ e. ltb e.0 h) all_slots in
      let high = filter (λ e. leb h e.0) all_slots in
      omega (
        arith,
        ap length start.order,
        length-append high low,
        length-append low high,
        ap length (filter-split h all_slots sorted),
      )

-- For a map in order, with positions in the range of size_t, the loop by `lower_bound` finds the
-- distinct owners in clockwise order from the key's hash, up to the limit; its fuel is enough.
pub replicas_of-collect :
    (hash : Text → ℕ) (slots : List Slot) (limit : ℕ) (key : Text)
    → IsSorted slots
    → InRange slots
    → replicas_of hash slots limit key ≡ collect limit [] (owners (clockwise (hash key) slots))
unfolding replicas_of
replicas_of-collect hash [] limit key s r = unfold clockwise collect in refl
replicas_of-collect hash (first ∷ rest) limit key s r =
    let w = start first rest (hash key) s r in
    rw (w.starts, w.order)
      (rw
        (gather-collect (suc (length rest)) first (first ∷ rest) limit w.it.0 w.it w.es []
          (enough_fuel first rest (hash key) s r) w.follows)
        refl)

-- On a map in order, with positions in the range of size_t, a node is found responsible for a key
-- exactly when it is among the distinct owners, up to the limit, in clockwise order.
pub owner_found-collect :
    (hash : Text → ℕ) (slots : List Slot) (limit : ℕ) (key node : Text)
    → IsSorted slots
    → InRange slots
    → owner_found hash slots limit key node
      ≡ contains (collect limit [] (owners (clockwise (hash key) slots))) node
unfolding owner_found
owner_found-collect hash [] limit key node s r = unfold clockwise collect contains in refl
owner_found-collect hash (first ∷ rest) limit key node s r =
    let w = start first rest (hash key) s r in
    rw (w.starts, w.order)
      (rw
        (search_owner-collect (suc (length rest)) first (first ∷ rest) limit w.it.0 w.it w.es node
          [] (enough_fuel first rest (hash key) s r) (unfold contains in refl) w.follows)
        refl)
