-- ===== src/Versions/Latest/Newest.antt =====
-- `remove_unconflict_data` and `get_latest_data` (src/state_machine.cpp): the index loops are a
-- filter, and what is left is what no other answer outdates.
use cs739_cloud_native.Common.{
  ℕ, suc, ◌+◌, ◌≡◌, ◌≢◌, ◌↔◌, refl, Bool, true, false, not, some, List, [], ◌∷◌, arith, ◌==◌, any,
  any-false-In, any-false, Bool-cases, inl, inr, In, get_elem?, filter, In-filter, filter-In,
}
use cs739_cloud_native.Versions.{
  VersionVector, Versioned, Verdict, earlier, check_conflict_version, remove_duplicate_data,
  is_earlier, is_old_data, keep_newest, remove_unconflict_data, get_latest_data,
}
use cs739_cloud_native.Versions.Reference.{reference, check_conflict_version-eq-reference}
use cs739_cloud_native.Versions.Order.{has_greater-has_less}
use cs739_cloud_native.Versions.Latest.{NoRepeat, remove_duplicate_data_lem}

-- No vector is earlier than itself, whatever it holds.
pub not-earlier_self : (v : VersionVector) → is_earlier (check_conflict_version v v) ≡ false
unfolding reference is_earlier
not-earlier_self [] = rw check_conflict_version-eq-reference refl
not-earlier_self (p ∷ v) =
    rw check_conflict_version-eq-reference (ground (arith, has_greater-has_less (p ∷ v) (p ∷ v)))

-- some answer is later than `x`
abbrev pub outdated : List Versioned → Versioned → Bool
outdated xs x = any (λ y. is_earlier (check_conflict_version x.1 y.1)) xs

-- The test `i != j` changes nothing, since the element at `i` is `x` itself.
is_old_data-any :
    (i : ℕ) (x : Versioned) (j : ℕ) (ys : List Versioned)
    → ((k : ℕ) (y : Versioned) → get_elem? ys k ≡ some y → j + k ≡ i → y ≡ x)
    → is_old_data i x j ys ≡ outdated ys x
unfolding is_old_data
is_old_data-any i x j [] h = refl
is_old_data-any i x j (y ∷ ys) h =
    rw (is_old_data-any i x (suc j) ys (λ k z e p. h (suc k) z e (omega arith)))
      (elim (Bool-cases (i == j)) [
        | inl hit ↦
            let e : y ≡ x = h 0 y refl (ground arith) in rw (hit, e) (rw not-earlier_self refl)
        | inr miss ↦ rw miss refl
      ])

keep_newest-filter :
    (original : List Versioned) (i : ℕ) (xs : List Versioned)
    → ((k l : ℕ) (y : Versioned)
        → get_elem? xs k ≡ some y
        → i + k ≡ l
        → get_elem? original l ≡ some y)
    → keep_newest original i xs ≡ filter (λ x. not (outdated original x)) xs
unfolding keep_newest
keep_newest-filter original i [] h = refl
keep_newest-filter original i (x ∷ xs) h =
    let at : get_elem? original i ≡ some x = h 0 i x refl (omega arith) in
    rw
      (
        keep_newest-filter original (suc i) xs (λ k l y e p. h (suc k) l y e (omega arith)),
        is_old_data-any i x 0 original (λ k y e p.
            let q : k ≡ i = omega arith in
            let r : get_elem? original i ≡ some y = rw (← q) e in ground arith),
      )
      (ground arith)

-- The two index loops keep, in order, each answer that no answer of the list is later than.
pub remove_unconflict_data-filter :
    (xs : List Versioned) → remove_unconflict_data xs ≡ filter (λ x. not (outdated xs x)) xs
unfolding remove_unconflict_data
remove_unconflict_data-filter xs =
    keep_newest-filter xs 0 xs λ k l y e p. let q : k ≡ l = omega arith in rw (← q) e

filter-NoRepeat :
    (p : Versioned → Bool) (xs : List Versioned) → NoRepeat xs → NoRepeat (filter p xs)
filter-NoRepeat p [] d = tt
filter-NoRepeat p (x ∷ xs) d = elim (Bool-cases (p x)) [
  | inr e ↦ rw e (filter-NoRepeat p xs d.1)
  | inl e ↦ rw e (
    any-false _ (filter p xs) (λ a i. any-false-In _ d.0 (In-filter p xs i).0),
    filter-NoRepeat p xs d.1,
  )
]

is_earlier_iff : (r : Verdict) → (is_earlier r ≡ false) ↔ (r ≢ earlier)
unfolding is_earlier
is_earlier_iff r = ground arith

-- Being kept by the filter, as a statement about all answers.
newest_iff :
    (xs : List Versioned) (a : Versioned)
    → (not (outdated xs a) ≡ true)
      ↔ ((b : Versioned) → In b xs → check_conflict_version a.1 b.1 ≢ earlier)
newest_iff xs a = (
  λ h b i.
      (is_earlier_iff _).0
        (any-false-In (λ y. is_earlier (check_conflict_version a.1 y.1)) (ground arith) i),
  λ h.
      rw
        (any-false (λ y. is_earlier (check_conflict_version a.1 y.1)) xs
          (λ b i. (is_earlier_iff _).1 (h b i)))
        refl,
)

-- What a read returns: exactly the answers of the replicas whose version is not earlier than that
-- of any answer, each once.
pub get_latest_data_lem :
    (xs : List Versioned)
    → NoRepeat (get_latest_data xs)
      × ((a : Versioned)
          → In a (get_latest_data xs)
            ↔ (In a xs × ((b : Versioned) → In b xs → check_conflict_version a.1 b.1 ≢ earlier)))
unfolding get_latest_data
get_latest_data_lem xs =
    let (once, mem) = remove_duplicate_data_lem xs in
    let ys = remove_duplicate_data xs in
    rw remove_unconflict_data-filter (
      filter-NoRepeat _ ys once,
      λ a. (
        λ i.
            let (j, k) = In-filter _ ys i in
            ((mem a).0 j, λ b m. (newest_iff ys a).0 k b ((mem b).1 m)),
        λ (i, h). filter-In _ ys ((mem a).1 i) ((newest_iff ys a).1 (λ b m. h b ((mem b).0 m))),
      ),
    )
