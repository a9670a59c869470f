-- ===== src/Versions/Reconcile.antt =====
-- `reconcile_version` (src/state_machine.cpp): the version vector of the siblings put together.
pub mod Join
use cs739_cloud_native.Common.{
  ℕ, ◌+◌, ◌<◌, ◌≤◌, max, ◌≡◌, ◌≢◌, ◌⊎◌, refl, sym, ap, ◌∙◌, Bool, true, false, Option, none, some,
  List, [], ◌∷◌, ◌++◌, arith, if◌then◌else◌, Text, text_eq, text_eq_iff, text_eq_refl, contains,
  contains-append, keys, Bool-cases, Option-cases, inl, inr, lookup, insert, lookup-insert,
  IsDistinct, AllDistinct, append-AllDistinct, In, here, there, In-of_lookup, lookup_of_In, All,
  All-In, Assoc,
}
use cs739_cloud_native.Versions.{
  VersionVector, Versioned, Verdict, latest, check_conflict_version, update_version, u64, Merge,
  mapped, merge_pair, merge_version, merge_all, read_out, reconcile_version,
}
use cs739_cloud_native.Versions.Order.{Le, Le-trans}
use cs739_cloud_native.Versions.Update.{count_of, update_version-latest}

-- What the two locals of the loop say of a server.
view : Merge → Text → Option ℕ
view m t = if contains m.existing_server t then some (mapped m.mapping_version t) else none

view-merge_pair :
    (m : Merge) (s : Text) (n : ℕ) (t : Text)
    → view (merge_pair m (s, n)) t
      ≡ (if text_eq s t then some (max (count_of (view m s)) n) else view m t)
unfolding view merge_pair contains
view-merge_pair m s n t = ground (
  arith,
  text_eq_iff s t,
  contains-append m.existing_server (s ∷ []) t,
  lookup-insert s t n m.mapping_version,
  lookup-insert s t (max (mapped m.mapping_version s) n) m.mapping_version,
)

-- every server that `f` knows, `g` knows at the same or a higher version
abbrev Below : (Text → Option ℕ) → (Text → Option ℕ) → Type 0
Below f g = (t : Text) (n : ℕ) → f t ≡ some n → (k : ℕ) × (g t ≡ some k) × (n ≤ k)

Below-trans : (f g h : Text → Option ℕ) → Below f g → Below g h → Below f h
Below-trans f g h p q t n e =
    let (k, a, b) = p t n e in let (l, c, d) = q t k a in (l, c, omega arith)

Below-refl : (f : Text → Option ℕ) → Below f f
Below-refl f t n e = (n, e, omega arith)

merge_pair-grows : (m : Merge) (p : Text × ℕ) → Below (view m) (view (merge_pair m p))
merge_pair-grows m (s, n) t k e = elim (Bool-cases (text_eq s t)) [
  | inl hit ↦
      let st : s ≡ t = (text_eq_iff s t).0 hit in
      let f : view m s ≡ some k = rw st e in
      (max (count_of (view m s)) n, rw (view-merge_pair, hit), rw f (omega arith))
  | inr miss ↦ (k, rw (view-merge_pair, miss) e, omega arith)
]

merge_pair-has :
    (m : Merge) (s : Text) (n : ℕ) → (k : ℕ) × (view (merge_pair m (s, n)) s ≡ some k) × (n ≤ k)
merge_pair-has m s n =
    (max (count_of (view m s)) n, rw (view-merge_pair, text_eq_refl), omega arith)

merge_version-grows : (m : Merge) (v : VersionVector) → Below (view m) (view (merge_version m v))
unfolding merge_version
merge_version-grows m [] = Below-refl (view m)
merge_version-grows m (p ∷ v) =
    Below-trans (view m) (view (merge_pair m p)) _ (merge_pair-grows m p)
      (merge_version-grows (merge_pair m p) v)

merge_version-has :
    (m : Merge) (v : VersionVector) (s : Text) (n : ℕ)
    → In (s, n) v
    → (k : ℕ) × (view (merge_version m v) s ≡ some k) × (n ≤ k)
unfolding merge_version
merge_version-has m [] s n i = elim i [ ]
merge_version-has m (p ∷ v) s n here =
    let (k, e, h) = merge_pair-has m s n in
    let (l, f, g) = merge_version-grows (merge_pair m (s, n)) v s k e in (l, f, omega arith)
merge_version-has m (p ∷ v) s n (there i) = merge_version-has (merge_pair m p) v s n i

merge_all-grows : (m : Merge) (ds : List Versioned) → Below (view m) (view (merge_all m ds))
unfolding merge_all
merge_all-grows m [] = Below-refl (view m)
merge_all-grows m (d ∷ ds) =
    Below-trans (view m) (view (merge_version m d.1)) _ (merge_version-grows m d.1)
      (merge_all-grows (merge_version m d.1) ds)

merge_all-has :
    (m : Merge) (ds : List Versioned) (d : Versioned) (s : Text) (n : ℕ)
    → In d ds
    → In (s, n) d.1
    → (k : ℕ) × (view (merge_all m ds) s ≡ some k) × (n ≤ k)
unfolding merge_all
merge_all-has m [] d s n i j = elim i [ ]
merge_all-has m (x ∷ ds) d s n here j =
    let (k, e, h) = merge_version-has m d.1 s n j in
    let (l, f, g) = merge_all-grows (merge_version m d.1) ds s k e in (l, f, omega arith)
merge_all-has m (x ∷ ds) d s n (there i) j = merge_all-has (merge_version m x.1) ds d s n i j

-- The merge stays below whatever bounds its inputs.
module _ (u : VersionVector) where
  abbrev Bounded : Merge → Type 0
  Bounded m = Below (view m) (λ t. lookup t u)

  merge_pair-Bounded :
      (m : Merge) (s : Text) (n k : ℕ)
      → Bounded m
      → lookup s u ≡ some k
      → n ≤ k
      → Bounded (merge_pair m (s, n))
  merge_pair-Bounded m s n k b e h t l f = elim (Bool-cases (text_eq s t)) [
    | inl hit ↦
        let st : s ≡ t = (text_eq_iff s t).0 hit in
        let g : max (count_of (view m s)) n ≡ l = ground (arith, view-merge_pair m s n t) in
        (k, rw (← st) e, rw (← g) (max_le (view m s) refl))
    | inr miss ↦ b t l (sym (ground (arith, view-merge_pair m s n t)) ∙ f)
  ]
    where
      max_le : (o : Option ℕ) → view m s ≡ o → max (count_of (view m s)) n ≤ k
      max_le none e' = rw e' (omega arith)
      max_le (some j) e' =
          let (i, a, c) = b s j e' in let q : i ≡ k = ground arith in rw e' (omega arith)

  merge_version-Bounded :
      (m : Merge) (v : VersionVector)
      → Bounded m
      → ((s : Text) (n : ℕ) → In (s, n) v → (k : ℕ) × (lookup s u ≡ some k) × (n ≤ k))
      → Bounded (merge_version m v)
  unfolding merge_version
  merge_version-Bounded m [] b h = b
  merge_version-Bounded m ((s, n) ∷ v) b h =
      let (k, e, p) = h s n here in
      merge_version-Bounded (merge_pair m (s, n)) v (merge_pair-Bounded m s n k b e p)
        (λ t j i. h t j (there i))

  merge_all-Bounded :
      (m : Merge) (ds : List Versioned)
      → Bounded m
      → ((d : Versioned) → In d ds → IsDistinct d.1 × Le d.1 u)
      → Bounded (merge_all m ds)
  unfolding merge_all
  merge_all-Bounded m [] b h = b
  merge_all-Bounded m (d ∷ ds) b h =
      let (dist, le) = h d here in
      merge_all-Bounded (merge_version m d.1) ds
        (merge_version-Bounded m d.1 b (λ s n i. le s n (lookup_of_In s d.1 dist i)))
        (λ x i. h x (there i))
