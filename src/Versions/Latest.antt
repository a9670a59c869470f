-- ===== src/Versions/Latest.antt =====
-- `remove_duplicate_data`, `remove_unconflict_data` and `get_latest_data` (src/state_machine.cpp):
-- which of the answers of the replicas are left.
pub mod Newest
pub mod Maximal
pub mod Overtaken
pub mod Best
pub mod Above
use cs739_cloud_native.Common.{
  ℕ, zero, suc, ◌+◌, ◌≡◌, ◌≢◌, ◌↔◌, ◌⊎◌, refl, sym, ap, ◌∙◌, Bool, true, false, not, ◌&&◌, ◌||◌,
  Option, none, some, List, [], ◌∷◌, ◌++◌, arith, ◌==◌, if◌then◌else◌, any, any-In, In-of_any,
  any-false-In, any-false, any-append, Text, text_eq, text_eq_iff, Bool-cases, inl, inr, In, here,
  there, In-cons, In-append, In-append_left, In-append_right, get_elem?, filter, In-filter,
  filter-In,
}
use cs739_cloud_native.Versions.{
  VersionVector, Versioned, Verdict, earlier, same, latest, conflict, check_conflict_version,
  version_eq, versioned_eq, collect_unique, remove_duplicate_data, is_earlier, is_old_data,
  keep_newest, remove_unconflict_data, get_latest_data,
}
use cs739_cloud_native.Versions.Reference.{
  has_less, has_greater, misses, is_empty, reference, check_conflict_version-eq-reference,
}
use cs739_cloud_native.Versions.Order.{has_greater-has_less}

eq_of_version_eq : (v w : VersionVector) → version_eq v w ≡ true → v ≡ w
unfolding version_eq
eq_of_version_eq [] [] h = refl
eq_of_version_eq ((s, n) ∷ v) ((t, m) ∷ w) h = ground (arith, text_eq_iff s t, eq_of_version_eq v w)
eq_of_version_eq _ _ h = cc

version_eq_refl : (v : VersionVector) → version_eq v v ≡ true
unfolding version_eq
version_eq_refl [] = refl
version_eq_refl ((s, n) ∷ v) = ground (arith, text_eq_iff s s, version_eq_refl v)

pub versioned_eq_iff : (a b : Versioned) → (versioned_eq a b ≡ true) ↔ (a ≡ b)
unfolding versioned_eq
versioned_eq_iff (x, v) (y, w) = (
  λ h. ground (arith, text_eq_iff x y, eq_of_version_eq v w),
  λ e.
      let p : x ≡ y = ap (λ (d : Versioned). d.0) e in
      let q : v ≡ w = ap (λ (d : Versioned). d.1) e in
      rw (p, q) (ground (arith, text_eq_iff y y, version_eq_refl w)),
)

In-collect_unique :
    (unique xs : List Versioned) {a : Versioned}
    → In a (collect_unique unique xs)
    → In a unique ⊎ In a xs
unfolding collect_unique
In-collect_unique unique [] i = inl i
In-collect_unique unique (x ∷ xs) i = elim (Bool-cases (any (versioned_eq x) unique)) [
  | inl old ↦ elim (In-collect_unique unique xs (rw old at i)) [
    | inl j ↦ inl j
    | inr j ↦ inr (there j)
  ]
  | inr new ↦ elim (In-collect_unique (unique ++ x ∷ []) xs (rw new at i)) [
    | inr j ↦ inr (there j)
    | inl j ↦ elim (In-append unique j) [
      | inl k ↦ inl k
      | inr k ↦ inr (elim (In-cons k) [ inl e ↦ rw e here | inr none_left ↦ elim none_left [ ] ])
    ]
  ]
]

collect_unique-In :
    (unique xs : List Versioned) {a : Versioned}
    → In a unique ⊎ In a xs
    → In a (collect_unique unique xs)
unfolding collect_unique
collect_unique-In unique [] (inl i) = i
collect_unique-In unique [] (inr i) = elim i [ ]
collect_unique-In unique (x ∷ xs) i = elim (Bool-cases (any (versioned_eq x) unique)) [
  | inl old ↦ rw old (
      collect_unique-In unique xs (elim i [
        | inl j ↦ inl j
        | inr j ↦ elim (In-cons j) [
          | inl e ↦
              let (y, k, h) = In-of_any (versioned_eq x) unique old in
              inl (rw (e, (versioned_eq_iff x y).0 h) k)
          | inr k ↦ inr k
        ]
      ]))
  | inr new ↦ rw new (
      collect_unique-In (unique ++ x ∷ []) xs (elim i [
        | inl j ↦ inl (In-append_left (x ∷ []) j)
        | inr j ↦ elim (In-cons j) [
          | inl e ↦ inl (rw e (In-append_right unique here))
          | inr k ↦ inr k
        ]
      ]))
]

-- no answer stands twice
abbrev pub NoRepeat : List Versioned → Type 0
NoRepeat [] = Unit {0}
NoRepeat (x ∷ xs) = (any (versioned_eq x) xs ≡ false) × NoRepeat xs

versioned_eq_symm : (a b : Versioned) → versioned_eq a b ≡ versioned_eq b a
versioned_eq_symm a b = ground (arith, versioned_eq_iff a b, versioned_eq_iff b a)

append-NoRepeat :
    (xs : List Versioned) (x : Versioned)
    → any (versioned_eq x) xs ≡ false
    → NoRepeat xs
    → NoRepeat (xs ++ x ∷ [])
append-NoRepeat [] x h d = (refl, tt)
append-NoRepeat (y ∷ ys) x h d = (
  ground (arith, any-append (versioned_eq y) ys (x ∷ []), versioned_eq_symm x y),
  append-NoRepeat ys x (ground arith) d.1,
)

collect_unique-NoRepeat :
    (unique xs : List Versioned) → NoRepeat unique → NoRepeat (collect_unique unique xs)
unfolding collect_unique
collect_unique-NoRepeat unique [] d = d
collect_unique-NoRepeat unique (x ∷ xs) d = elim (Bool-cases (any (versioned_eq x) unique)) [
  | inl old ↦ rw old (collect_unique-NoRepeat unique xs d)
  | inr new ↦
      rw new (collect_unique-NoRepeat (unique ++ x ∷ []) xs (append-NoRepeat unique x new d))
]

-- Exactly the answers that were there are left, and none of them twice.
pub remove_duplicate_data_lem :
    (xs : List Versioned)
    → NoRepeat (remove_duplicate_data xs)
      × ((a : Versioned) → In a (remove_duplicate_data xs) ↔ In a xs)
unfolding remove_duplicate_data
remove_duplicate_data_lem xs = (
  collect_unique-NoRepeat [] xs tt,
  λ a. (
    λ i. elim (In-collect_unique [] xs i) [ inl none_yet ↦ elim none_yet [ ] | inr j ↦ j ],
    λ i. collect_unique-In [] xs (inr i),
  ),
)
