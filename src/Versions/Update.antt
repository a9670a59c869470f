-- ===== src/Versions/Update.antt =====
-- `update_version` (src/state_machine.cpp): one server's version goes up by one.
use cs739_cloud_native.Common.{
  ℕ, ◌+◌, ◌%◌, ◌<◌, ◌≡◌, ◌≢◌, refl, sym, ap, ◌∙◌, subst, false, ◌||◌, Option, none, some, [], ◌∷◌,
  ◌++◌, arith, if◌then◌else◌, Text, text_eq, text_eq_iff, text_eq_refl, contains, keys, Bool-cases,
  Option-cases, inl, inr, lookup, IsDistinct, lookup_of_contains, contains_of_lookup,
}
use cs739_cloud_native.Versions.{
  VersionVector, latest, check_conflict_version, bump, update_version, u64,
}
use cs739_cloud_native.Versions.Order.{Le, latest_iff}

-- the version of a server, where a server with no record reads 0
abbrev pub count_of : Option ℕ → ℕ
count_of none = 0
count_of (some n) = n

lookup-append :
    (s t : Text) (n : ℕ) (v : VersionVector)
    → lookup t (v ++ (s, n) ∷ [])
      ≡ elim (lookup t v) [ some m ↦ some m | none ↦ if text_eq s t then some n else none ]
unfolding lookup
lookup-append s t n [] = refl
lookup-append s t n ((r, m) ∷ v) = ground (arith, lookup-append s t n v)

bump-found : (v : VersionVector) (s : Text) → (bump v s).1 ≡ contains (keys v) s
unfolding bump contains keys
bump-found [] s = refl
bump-found ((r, m) ∷ v) s = ground (arith, bump-found v s)

keys-bump : (v : VersionVector) (s : Text) → keys (bump v s).0 ≡ keys v
unfolding bump keys
keys-bump [] s = refl
keys-bump ((r, m) ∷ v) s = ground (arith, keys-bump v s)

abbrev raised : Option ℕ → Option ℕ
raised none = none
raised (some n) = some ((n + 1) % u64)

lookup-bump :
    (v : VersionVector) (s t : Text)
    → lookup t (bump v s).0 ≡ (if text_eq s t then raised (lookup t v) else lookup t v)
unfolding bump lookup
lookup-bump [] s t = ground arith
lookup-bump ((r, m) ∷ v) s t =
    ground (arith, lookup-bump v s t, text_eq_iff r s, text_eq_iff r t, text_eq_iff s t)

-- The server's record goes up by one, modulo 2^64, or starts at 1; every other record stays.
pub lookup-update_version :
    (v : VersionVector) (s t : Text)
    → lookup t (update_version v s)
      ≡ (if text_eq s t then some ((count_of (lookup s v) + 1) % u64) else lookup t v)
unfolding update_version
lookup-update_version v s t = elim (Bool-cases (bump v s).1) [
  | inl old ↦
      let (n, e) = lookup_of_contains s v (sym (bump-found v s) ∙ old) in
      rw old (ground (arith, lookup-bump v s t, text_eq_iff s t))
  | inr new ↦
      let e : lookup s v ≡ none = absent (sym (bump-found v s) ∙ new) in
      rw (new, lookup-append) (ground (arith, lookup-bump v s t, text_eq_iff s t))
]
  where
    absent : contains (keys v) s ≡ false → lookup s v ≡ none
    absent c = elim (Option-cases (lookup s v)) [
      | inl e ↦ e
      | inr (n, e) ↦ let k = contains_of_lookup s v e in cc
    ]

bump-IsDistinct : (v : VersionVector) (s : Text) → IsDistinct v → IsDistinct (bump v s).0
unfolding bump
bump-IsDistinct [] s d = tt
bump-IsDistinct ((r, m) ∷ v) s d =
    ground (arith, keys-bump v s, bump-IsDistinct v s d.1, ap (λ k. contains k r) (keys-bump v s))

contains-append :
    (v : VersionVector) (s : Text) (n : ℕ) (t : Text)
    → contains (keys (v ++ (s, n) ∷ [])) t ≡ contains (keys v) t || text_eq s t
unfolding contains keys
contains-append [] s n t = ground arith
contains-append ((r, m) ∷ v) s n t = ground (arith, contains-append v s n t)

append-IsDistinct :
    (v : VersionVector) (s : Text) (n : ℕ)
    → contains (keys v) s ≡ false
    → IsDistinct v
    → IsDistinct (v ++ (s, n) ∷ [])
unfolding contains keys
append-IsDistinct [] s n c d = (refl, tt)
append-IsDistinct ((r, m) ∷ v) s n c d = (
  ground (arith, contains-append v s n r, text_eq_iff r s, text_eq_iff s r),
  append-IsDistinct v s n (ground arith) d.1,
)

-- A vector that names each server once still does.
pub update_version-IsDistinct :
    (v : VersionVector) (s : Text) → IsDistinct v → IsDistinct (update_version v s)
unfolding update_version
update_version-IsDistinct v s d = elim (Bool-cases (bump v s).1) [
  | inl old ↦ rw old (bump-IsDistinct v s d)
  | inr new ↦ rw new (
      append-IsDistinct (bump v s).0 s 1 (rw keys-bump (sym (bump-found v s) ∙ new))
        (bump-IsDistinct v s d))
]

module _ (v w : VersionVector) (s : Text) (room : count_of (lookup s v) + 1 < u64)
    (h : Le w v) where
  self_version : lookup s (update_version v s) ≡ some (count_of (lookup s v) + 1)
  self_version = ground (arith, lookup-update_version v s s, text_eq_refl s)

  update_version-above : Le w (update_version v s)
  update_version-above t n e =
      let (m, f, p) = h t n e in
      elim (Bool-cases (text_eq s t)) [
        | inl hit ↦
            let st : s ≡ t = (text_eq_iff s t).0 hit in
            let g : lookup s v ≡ some m = rw st f in
            (count_of (lookup s v) + 1, rw (← st) self_version, rw g (omega arith))
        | inr miss ↦ (m, rw (lookup-update_version, miss) f, p)
      ]

  not-update_version-below : ¬ Le (update_version v s) w
  not-update_version-below k =
      let (m, e, p) = k s (count_of (lookup s v) + 1) self_version in
      let (l, f, q) = h s m e in
      let g : count_of (lookup s v) ≡ l = ap count_of f in absurd (omega arith)

  update_version-ne-nil : update_version v s ≢ []
  unfolding lookup
  update_version-ne-nil e =
      let f : lookup s [] ≡ some (count_of (lookup s v) + 1) =
        subst (λ u. lookup s u ≡ some (count_of (lookup s v) + 1)) e self_version in
      cc

-- A vector whose own entry a server raises, with no wrap at 2^64, is the latest against every
-- vector that lies below the old one, the old one included; both name each server once.
pub update_version-latest :
    (v w : VersionVector) (s : Text)
    → IsDistinct v
    → IsDistinct w
    → count_of (lookup s v) + 1 < u64
    → Le w v
    → check_conflict_version (update_version v s) w ≡ latest
update_version-latest v w s dv dw room h =
    (latest_iff (update_version v s) w (update_version-IsDistinct v s dv) dw
        (update_version-ne-nil v w s room h)).1
      (update_version-above v w s room h, not-update_version-below v w s room h)
