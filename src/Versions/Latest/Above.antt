-- ===== src/Versions/Latest/Above.antt =====
-- A read returns every answer or one later than it (`get_latest_data` of src/state_machine.cpp).
use cs739_cloud_native.Common.{
  ◌≡◌, ◌⊎◌, refl, subst, List, [], ◌∷◌, inl, inr, In, here, there, In-cons, IsDistinct,
}
use cs739_cloud_native.Versions.{Versioned, get_latest_data}
use cs739_cloud_native.Versions.Latest.Newest.{get_latest_data_lem}
use cs739_cloud_native.Versions.Latest.Maximal.{Earlier, Earlier-trans}
use cs739_cloud_native.Versions.Latest.Best.{
  better, better-cases, best_of, best_of-In, best_of-newest,
}

-- the same, or later
abbrev pub IsUpTo : Versioned → Versioned → Type 0
IsUpTo x a = (a ≡ x) ⊎ Earlier x.1 a.1

better-IsUpTo :
    (x best y : Versioned)
    → IsDistinct x.1
    → IsDistinct best.1
    → IsDistinct y.1
    → IsUpTo x best
    → IsUpTo x (better best y)
better-IsUpTo x best y dx db dy u = elim (better-cases best y) [
  | inr (q, _) ↦ rw q u
  | inl (q, e) ↦ rw q (elim u [
    | inl same ↦ inr (subst (λ (z : Versioned). Earlier z.1 y.1) same e)
    | inr below ↦ inr (Earlier-trans x.1 best.1 y.1 dx db dy below e)
  ])
]

best_of-IsUpTo :
    (x best : Versioned) (xs : List Versioned)
    → IsDistinct x.1
    → IsDistinct best.1
    → ((d : Versioned) → In d xs → IsDistinct d.1)
    → IsUpTo x best
    → IsUpTo x (best_of best xs)
unfolding best_of
best_of-IsUpTo x best [] dx db dist u = u
best_of-IsUpTo x best (y ∷ xs) dx db dist u =
    best_of-IsUpTo x (better best y) xs dx (known (better-cases best y)) (λ d i. dist d (there i))
      (better-IsUpTo x best y dx db (dist y here) u)
  where
    known :
        ((better best y ≡ y) × Earlier best.1 y.1) ⊎ ((better best y ≡ best) × ¬ Earlier best.1 y.1)
        → IsDistinct (better best y).1
    known (inl (q, _)) = rw q (dist y here)
    known (inr (q, _)) = rw q db

-- Among answers that each name a server once, every answer is returned, or one that is later.
pub get_latest_data-IsUpTo :
    (x : Versioned) (xs : List Versioned)
    → In x xs
    → ((d : Versioned) → In d xs → IsDistinct d.1)
    → (a : Versioned) × In a (get_latest_data xs) × IsUpTo x a
get_latest_data-IsUpTo x xs i dist =
    let all : (d : Versioned) → In d (x ∷ xs) → IsDistinct d.1 =
      λ d j. elim (In-cons j) [ inl e ↦ rw e (dist x i) | inr k ↦ dist d k ] in
    let there_is : In (best_of x xs) xs = elim (In-cons (best_of-In x xs)) [
      | inl e ↦ rw e i
      | inr k ↦ k
    ] in
    (
      best_of x xs,
      ((get_latest_data_lem xs).1 (best_of x xs)).1 (
        there_is,
        λ b j.
            best_of-newest x [] xs (λ d k. all d (elim k [ inl e ↦ elim e [ ] | inr l ↦ l ]))
              (λ d k. elim k [ ]) b (inr (there j)),
      ),
      best_of-IsUpTo x x xs (dist x i) (dist x i) dist (inl refl),
    )
