-- ===== src/Versions/Latest/Best.antt =====
-- A read that has an answer returns one (`get_latest_data` of src/state_machine.cpp).
use cs739_cloud_native.Common.{
  ◌≡◌, ◌⊎◌, List, [], ◌∷◌, arith, if◌then◌else◌, inl, inr, In, here, there, In-cons, IsDistinct,
}
use cs739_cloud_native.Versions.{Versioned, check_conflict_version, is_earlier, get_latest_data}
use cs739_cloud_native.Versions.Latest.Newest.{get_latest_data_lem}
use cs739_cloud_native.Versions.Latest.Maximal.{Earlier, Earlier-trans, not-Earlier-self}

-- The later of the best so far and the next answer.
pub better : Versioned → Versioned → Versioned
better best x = if is_earlier (check_conflict_version best.1 x.1) then x else best

-- A walk over the answers that keeps the best so far.
unfoldable pub best_of : Versioned → List Versioned → Versioned
best_of best [] = best
best_of best (x ∷ xs) = best_of (better best x) xs

pub better-cases :
    (best x : Versioned)
    → ((better best x ≡ x) × Earlier best.1 x.1) ⊎ ((better best x ≡ best) × ¬ Earlier best.1 x.1)
unfolding better is_earlier
better-cases best x = ground arith

pub best_of-In : (best : Versioned) (xs : List Versioned) → In (best_of best xs) (best ∷ xs)
unfolding best_of
best_of-In best [] = here
best_of-In best (x ∷ xs) = elim (In-cons (best_of-In (better best x) xs)) [
  | inr i ↦ there (there i)
  | inl e ↦ elim (better-cases best x) [
    | inl (q, _) ↦ rw (e, q) (there here)
    | inr (q, _) ↦ rw (e, q) here
  ]
]

better-In : (best x : Versioned) (xs : List Versioned) → In (better best x) (best ∷ x ∷ xs)
better-In best x xs = elim (better-cases best x) [
  | inl (q, _) ↦ rw q (there here)
  | inr (q, _) ↦ rw q here
]

module _ (best x : Versioned) (seen : List Versioned) where
  abbrev EachDistinct : List Versioned → Type 0
  EachDistinct ds = (d : Versioned) → In d ds → IsDistinct d.1

  -- Being later than the best so far is being later than all before it.
  better-newest :
      EachDistinct (best ∷ x ∷ seen)
      → ((d : Versioned) → In d seen → ¬ Earlier best.1 d.1)
      → (d : Versioned) → In d (best ∷ x ∷ seen)
      → ¬ Earlier (better best x).1 d.1
  better-newest dist h d i = elim (better-cases best x) [
    | inl (q, e) ↦ rw q λ k.
        let up : Earlier best.1 d.1 =
          Earlier-trans best.1 x.1 d.1 (dist best here) (dist x (there here)) (dist d i) e k in
        elim (In-cons i) [
          | inl p ↦ not-Earlier-self best.1 (rw p at up)
          | inr j ↦ elim (In-cons j) [ inl p ↦ not-Earlier-self x.1 (rw p at k) | inr l ↦ h d l up ]
        ]
    | inr (q, n) ↦ rw q λ k. elim (In-cons i) [
      | inl p ↦ not-Earlier-self best.1 (rw p at k)
      | inr j ↦ elim (In-cons j) [ inl p ↦ n (rw p at k) | inr l ↦ h d l k ]
    ]
  ]

-- The best of all is not earlier than any of them.
pub best_of-newest :
    (best : Versioned) (seen xs : List Versioned)
    → ((d : Versioned) → In d seen ⊎ In d (best ∷ xs) → IsDistinct d.1)
    → ((d : Versioned) → In d seen → ¬ Earlier best.1 d.1)
    → (d : Versioned) → In d seen ⊎ In d (best ∷ xs)
    → ¬ Earlier (best_of best xs).1 d.1
unfolding best_of
best_of-newest best seen [] dist h d (inl i) = h d i
best_of-newest best seen [] dist h d (inr i) = elim (In-cons i) [
  | inl e ↦ rw e (not-Earlier-self best.1)
  | inr none_left ↦ elim none_left [ ]
]
best_of-newest best seen (x ∷ xs) dist h d i =
    best_of-newest (better best x) (best ∷ x ∷ seen) xs (λ c j. dist c (back c j))
      (better-newest best x seen (λ c j. dist c (back c (inl j))) h) d
      (elim i [
        | inl j ↦ inl (there (there j))
        | inr j ↦ elim (In-cons j) [
          | inl e ↦ inl (rw e here)
          | inr k ↦ elim (In-cons k) [ inl e ↦ inl (rw e (there here)) | inr l ↦ inr (there l) ]
        ]
      ])
  where
    known : (c : Versioned) → In c (best ∷ x ∷ seen) → In c seen ⊎ In c (best ∷ x ∷ xs)
    known c j = elim (In-cons j) [
      | inl e ↦ inr (rw e here)
      | inr k ↦ elim (In-cons k) [ inl e ↦ inr (rw e (there here)) | inr l ↦ inl l ]
    ]

    back :
        (c : Versioned)
        → In c (best ∷ x ∷ seen) ⊎ In c (better best x ∷ xs)
        → In c seen ⊎ In c (best ∷ x ∷ xs)
    back c (inl j) = known c j
    back c (inr j) = elim (In-cons j) [
      | inl e ↦ rw e (known (better best x) (better-In best x seen))
      | inr k ↦ inr (there (there k))
    ]

-- Among answers that each name a server once, if there is one at all, one is left.
pub get_latest_data-ne-nil :
    (x : Versioned) (xs : List Versioned)
    → ((d : Versioned) → In d (x ∷ xs) → IsDistinct d.1)
    → (a : Versioned) × In a (get_latest_data (x ∷ xs))
get_latest_data-ne-nil x xs dist = (
  best_of x xs,
  ((get_latest_data_lem (x ∷ xs)).1 (best_of x xs)).1 (
    best_of-In x xs,
    λ b i.
        best_of-newest x [] xs (λ d j. dist d (elim j [ inl e ↦ elim e [ ] | inr k ↦ k ]))
          (λ d j. elim j [ ]) b (inr i),
  ),
)
