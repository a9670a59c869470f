-- ===== src/Versions.antt =====
-- The version vectors of src/state_machine.cpp: comparison, increment, reconciliation of siblings,
-- and the selection of the latest data. A vector<pair<string, uint64_t>> is a list of pairs in the
-- order of the source; an unordered_set<string> is a list of names of which only membership counts.
pub mod Reference
pub mod Order
pub mod Update
pub mod Reconcile
pub mod Latest
pub mod Clocks
use cs739_cloud_native.Common.{
  ℕ, zero, suc, ◌+◌, ◌%◌, ◌^◌, max, Bool, true, false, not, ◌&&◌, ◌||◌, Option, none, some, List,
  [], ◌∷◌, ◌++◌, ltb, ◌==◌, if◌then◌else◌, any, Text, text_eq, contains, Assoc, lookup, insert,
  keys,
}

-- vector<pair<string, uint64_t>>: server and version
abbrev pub VersionVector : Type 0
VersionVector = Assoc ℕ

-- pair<string, vector<pair<string, uint64_t>>>: a value with its version
abbrev pub Versioned : Type 0
Versioned = Text × VersionVector

-- The int that `check_conflict_version` returns: -1, 0, 1 and 2.
pub data Verdict : Type 0 where
  earlier same latest conflict : Verdict

-- `none` is the early `return 2` out of the loops.
infixl 5 ◌>>=◌
abbrev pub ◌>>=◌ {ℓ κ} : {A : Type ℓ} {B : Type κ} → Option A → (A → Option B) → Option B
none >>= f = none
some a >>= f = f a

-- The body of the test `incoming_pair.second < existing_pair.second`.
unfoldable pub note_earlier : Bool → Verdict → Option Verdict
note_earlier false res = some res
note_earlier true latest = none
note_earlier true _ = some earlier

-- The body of the test `incoming_pair.second > existing_pair.second`.
unfoldable pub note_latest : Bool → Verdict → Option Verdict
note_latest false res = some res
note_latest true earlier = none
note_latest true _ = some latest

-- The inner loop, over the existing pairs.
unfoldable pub compare_pair : List Text → Text × ℕ → VersionVector → Verdict → Option Verdict
unfolding note_earlier note_latest
compare_pair incoming_set p [] res = some res
compare_pair incoming_set p (q ∷ existing) res =
    if contains incoming_set q.0
    then (do
      r ← note_earlier (text_eq p.0 q.0 && ltb p.1 q.1) res
      r' ← note_latest (text_eq p.0 q.0 && ltb q.1 p.1) r
      compare_pair incoming_set p existing r')
    else none

-- The outer loop, over the incoming pairs.
unfoldable pub compare_pairs : List Text → VersionVector → VersionVector → Verdict → Option Verdict
compare_pairs incoming_set [] existing res = some res
compare_pairs incoming_set (p ∷ incoming) existing res = do
  r ← compare_pair incoming_set p existing res
  compare_pairs incoming_set incoming existing r

-- The last loop: a server that only the incoming vector knows makes it the latest.
unfoldable pub settle : VersionVector → VersionVector → Verdict → Verdict
settle incoming existing same =
    if any (λ s. not (contains (keys existing) s)) (keys incoming) then latest else same
settle incoming existing res = res

unfoldable pub check_conflict_version : VersionVector → VersionVector → Verdict
check_conflict_version incoming [] = latest
check_conflict_version [] (q ∷ existing) = earlier
check_conflict_version (p ∷ incoming) (q ∷ existing) =
    elim (compare_pairs (keys (p ∷ incoming)) (p ∷ incoming) (q ∷ existing) same) [
      | none ↦ conflict
      | some res ↦ settle (p ∷ incoming) (q ∷ existing) res
    ]

-- uint64_t arithmetic wraps.
abbrev pub u64 : ℕ
u64 = 2 ^ 64

-- The loop of `update_version`: the new vector, and whether the server has a record.
unfoldable pub bump : VersionVector → Text → VersionVector × Bool
bump [] server_name = ([], false)
bump ((s, n) ∷ rest) server_name =
    let (new, found) = bump rest server_name in
    if text_eq s server_name then ((s, (n + 1) % u64) ∷ new, true) else ((s, n) ∷ new, found)

unfoldable pub update_version : VersionVector → Text → VersionVector
unfolding bump
update_version original server_name =
    let (new, server_record_exist) = bump original server_name in
    if server_record_exist then new else new ++ (server_name, 1) ∷ []

-- The two locals of `reconcile_version`.
pub record Merge : Type 0 where
  pub existing_server : List Text
  pub mapping_version : Assoc ℕ

-- mapping_version[server], where a missing key reads 0
unfoldable pub mapped : Assoc ℕ → Text → ℕ
mapped m s = elim (lookup s m) [ none ↦ 0 | some n ↦ n ]

unfoldable pub merge_pair : Merge → Text × ℕ → Merge
unfolding mapped
merge_pair m (s, n) =
    if contains m.existing_server s
    then record m {
      mapping_version = insert s (max (mapped m.mapping_version s) n) m.mapping_version;
    }
    else record m {
      existing_server = m.existing_server ++ s ∷ [];
      mapping_version = insert s n m.mapping_version;
    }

unfoldable pub merge_version : Merge → VersionVector → Merge
merge_version m [] = m
merge_version m (p ∷ rest) = merge_version (merge_pair m p) rest

unfoldable pub merge_all : Merge → List Versioned → Merge
merge_all m [] = m
merge_all m (d ∷ rest) = merge_all (merge_version m d.1) rest

unfoldable pub read_out : List Text → Assoc ℕ → VersionVector
read_out [] mapping = []
read_out (s ∷ servers) mapping = (s, mapped mapping s) ∷ read_out servers mapping

unfoldable pub reconcile_version : List Versioned → VersionVector
reconcile_version conflict_versions =
    let m = merge_all (record { existing_server = []; mapping_version = [] }) conflict_versions in
    read_out m.existing_server m.mapping_version

-- operator== on vector<pair<string, uint64_t>>
unfoldable pub version_eq : VersionVector → VersionVector → Bool
version_eq [] [] = true
version_eq ((s, n) ∷ v) ((t, m) ∷ w) = text_eq s t && n == m && version_eq v w
version_eq _ _ = false

unfoldable pub versioned_eq : Versioned → Versioned → Bool
unfolding version_eq
versioned_eq a b = text_eq a.0 b.0 && version_eq a.1 b.1

-- The loop of `remove_duplicate_data` over what is left, with the vector built so far.
unfoldable pub collect_unique : List Versioned → List Versioned → List Versioned
unfolding versioned_eq
collect_unique unique [] = unique
collect_unique unique (x ∷ rest) =
    collect_unique (if any (versioned_eq x) unique then unique else unique ++ x ∷ []) rest

unfoldable pub remove_duplicate_data : List Versioned → List Versioned
unfolding collect_unique
remove_duplicate_data version_vectors = collect_unique [] version_vectors

-- check_conflict_version(…) < 0
unfoldable pub is_earlier : Verdict → Bool
is_earlier earlier = true
is_earlier _ = false

-- The inner loop of `remove_unconflict_data` from index j on: is element i older than another?
unfoldable pub is_old_data : ℕ → Versioned → ℕ → List Versioned → Bool
unfolding is_earlier
is_old_data i x j [] = false
is_old_data i x j (y ∷ ys) =
    (not (i == j) && is_earlier (check_conflict_version x.1 y.1)) || is_old_data i x (suc j) ys

-- The outer loop from index i on; `original` is the whole vector.
unfoldable pub keep_newest : List Versioned → ℕ → List Versioned → List Versioned
unfolding is_old_data
keep_newest original i [] = []
keep_newest original i (x ∷ xs) =
    let rest = keep_newest original (suc i) xs in
    if is_old_data i x 0 original then rest else x ∷ rest

unfoldable pub remove_unconflict_data : List Versioned → List Versioned
unfolding keep_newest
remove_unconflict_data original_vectors = keep_newest original_vectors 0 original_vectors

unfoldable pub get_latest_data : List Versioned → List Versioned
unfolding remove_duplicate_data remove_unconflict_data
get_latest_data original_vectors = remove_unconflict_data (remove_duplicate_data original_vectors)
