-- ===== src/Versions/Reconcile/Join.antt =====
-- `reconcile_version` (src/state_machine.cpp) as the least upper bound of the siblings, and what a
-- write of the reconciled version does to them.
use cs739_cloud_native.Common.{
  ℕ, ◌+◌, ◌<◌, ◌≡◌, ◌↔◌, refl, sym, ap, ◌∙◌, none, some, List, [], ◌∷◌, arith, if◌then◌else◌, Text,
  text_eq_iff, contains, keys, Bool-cases, inl, inr, lookup, IsDistinct, AllDistinct,
  append-AllDistinct, In, In-of_lookup, Assoc,
}
use cs739_cloud_native.Versions.{
  VersionVector, Versioned, latest, check_conflict_version, update_version, u64, Merge, mapped,
  merge_pair, merge_version, merge_all, read_out, reconcile_version,
}
use cs739_cloud_native.Versions.Order.{Le}
use cs739_cloud_native.Versions.Update.{count_of, update_version-latest}
use cs739_cloud_native.Versions.Reconcile.{view, merge_all-has, merge_all-Bounded}

abbrev start : Merge
start = record { existing_server = []; mapping_version = [] }

lookup-read_out :
    (servers : List Text) (mapping : Assoc ℕ) (t : Text)
    → lookup t (read_out servers mapping)
      ≡ (if contains servers t then some (mapped mapping t) else none)
unfolding read_out lookup contains
lookup-read_out [] mapping t = refl
lookup-read_out (s ∷ servers) mapping t =
    ground (arith, text_eq_iff s t, lookup-read_out servers mapping t)

lookup-reconcile :
    (ds : List Versioned) (t : Text) → lookup t (reconcile_version ds) ≡ view (merge_all start ds) t
unfolding reconcile_version view
lookup-reconcile ds t = lookup-read_out _ _ t

keys-read_out :
    (servers : List Text) (mapping : Assoc ℕ) → keys (read_out servers mapping) ≡ servers
unfolding read_out keys
keys-read_out [] mapping = refl
keys-read_out (s ∷ servers) mapping = ap (◌∷◌ s) (keys-read_out servers mapping)

read_out-IsDistinct :
    (servers : List Text) (mapping : Assoc ℕ)
    → AllDistinct servers
    → IsDistinct (read_out servers mapping)
unfolding read_out
read_out-IsDistinct [] mapping d = tt
read_out-IsDistinct (s ∷ servers) mapping d =
    (rw keys-read_out d.0, read_out-IsDistinct servers mapping d.1)

merge_pair-AllDistinct :
    (m : Merge) (p : Text × ℕ)
    → AllDistinct m.existing_server
    → AllDistinct (merge_pair m p).existing_server
unfolding merge_pair
merge_pair-AllDistinct m (s, n) d = elim (Bool-cases (contains m.existing_server s)) [
  | inl old ↦ rw old d
  | inr new ↦ rw new (append-AllDistinct m.existing_server s new d)
]

merge_version-AllDistinct :
    (m : Merge) (v : VersionVector)
    → AllDistinct m.existing_server
    → AllDistinct (merge_version m v).existing_server
unfolding merge_version
merge_version-AllDistinct m [] d = d
merge_version-AllDistinct m (p ∷ v) d =
    merge_version-AllDistinct (merge_pair m p) v (merge_pair-AllDistinct m p d)

merge_all-AllDistinct :
    (m : Merge) (ds : List Versioned)
    → AllDistinct m.existing_server
    → AllDistinct (merge_all m ds).existing_server
unfolding merge_all
merge_all-AllDistinct m [] d = d
merge_all-AllDistinct m (x ∷ ds) d =
    merge_all-AllDistinct (merge_version m x.1) ds (merge_version-AllDistinct m x.1 d)

-- The reconciled vector names each server once.
pub reconcile_version-IsDistinct : (ds : List Versioned) → IsDistinct (reconcile_version ds)
unfolding reconcile_version
reconcile_version-IsDistinct ds = read_out-IsDistinct _ _ (merge_all-AllDistinct start ds tt)

reconcile_version-above :
    (ds : List Versioned) (d : Versioned) → In d ds → Le d.1 (reconcile_version ds)
reconcile_version-above ds d i s n e =
    let (k, f, h) = merge_all-has start ds d s n i (In-of_lookup s d.1 e) in
    (k, rw lookup-reconcile f, h)

reconcile_version-least :
    (ds : List Versioned) (u : VersionVector)
    → ((d : Versioned) → In d ds → IsDistinct d.1 × Le d.1 u)
    → Le (reconcile_version ds) u
reconcile_version-least ds u h s n e =
    merge_all-Bounded u start ds (unfold view contains in λ t k f. cc) h s n
      (sym (lookup-reconcile ds s) ∙ e)

-- For siblings that each name a server once, the reconciled vector is their least upper bound: it
-- lies below a vector exactly when all of the siblings do.
pub reconcile_version-join :
    (ds : List Versioned) (u : VersionVector)
    → ((d : Versioned) → In d ds → IsDistinct d.1)
    → Le (reconcile_version ds) u ↔ ((d : Versioned) → In d ds → Le d.1 u)
reconcile_version-join ds u dist = (
  λ h d i s n e.
      let (k, f, p) = reconcile_version-above ds d i s n e in
      let (l, g, q) = h s k f in (l, g, omega arith),
  λ h. reconcile_version-least ds u (λ d i. (dist d i, h d i)),
)

-- The vector that a coordinator gives to a write of the reconciled data, when its own entry does
-- not wrap, is the latest against each of the siblings that name a server once.
pub reconcile_version-supersedes :
    (ds : List Versioned) (d : Versioned) (coordinator : Text)
    → In d ds
    → IsDistinct d.1
    → count_of (lookup coordinator (reconcile_version ds)) + 1 < u64
    → check_conflict_version (update_version (reconcile_version ds) coordinator) d.1 ≡ latest
reconcile_version-supersedes ds d coordinator i dist room =
    update_version-latest (reconcile_version ds) d.1 coordinator (reconcile_version-IsDistinct ds)
      dist room (reconcile_version-above ds d i)
