-- ===== src/Tests/Vectors.antt =====
-- Runs of the version vectors (src/state_machine.cpp).
use cs739_cloud_native.Common.{
  ℕ, ◌≡◌, ◌≢◌, ◌↔◌, refl, ◌+◌, ◌%◌, ◌<◌, if◌then◌else◌, not, none, some, List, [], ◌∷◌, arith,
  filter, In, here, there, Text, text, text_eq, contains, lookup, insert, keys, IsDistinct,
}
use cs739_cloud_native.Versions.{
  VersionVector, Versioned, earlier, same, latest, conflict, note_earlier, note_latest,
  compare_pair, compare_pairs, settle, check_conflict_version, bump, update_version, u64, mapped,
  merge_pair, merge_version, merge_all, read_out, reconcile_version, version_eq, versioned_eq,
  collect_unique, remove_duplicate_data, is_earlier, is_old_data, keep_newest,
  remove_unconflict_data, get_latest_data,
}
use cs739_cloud_native.Versions.Reference.{reference, check_conflict_version-eq-reference}
use cs739_cloud_native.Versions.Order.{Le, latest_iff, check_conflict_version-missing}
use cs739_cloud_native.Versions.Update.{count_of, lookup-update_version, update_version-latest}
use cs739_cloud_native.Versions.Reconcile.Join.{
  reconcile_version-join, reconcile_version-supersedes,
}
use cs739_cloud_native.Versions.Latest.{NoRepeat}
use cs739_cloud_native.Versions.Latest.Newest.{
  outdated, remove_unconflict_data-filter, get_latest_data_lem,
}
use cs739_cloud_native.Versions.Latest.Maximal.{Earlier, Earlier-trans}
use cs739_cloud_native.Versions.Latest.Overtaken.{NowhereAhead, earlier_iff}
use cs739_cloud_native.Versions.Latest.Best.{get_latest_data-ne-nil}

unfoldable pub comparison : Unit {0}
unfolding text_eq contains lookup keys note_earlier note_latest compare_pair compare_pairs settle
    check_conflict_version
comparison = tt

unfoldable pub selection : Unit {0}
unfolding comparison version_eq versioned_eq collect_unique remove_duplicate_data is_earlier
    is_old_data keep_newest remove_unconflict_data get_latest_data
selection = tt

merging : Unit {0}
unfolding comparison insert bump update_version mapped merge_pair merge_version merge_all read_out
    reconcile_version
merging = tt

-- {A: 1, B: 2}, {A: 1, B: 3}, {A: 2, B: 1} and {A: 1}
abbrev pub low : VersionVector
low = (text "A", 1) ∷ (text "B", 2) ∷ []

abbrev high : VersionVector
high = (text "A", 1) ∷ (text "B", 3) ∷ []

abbrev aside : VersionVector
aside = (text "A", 2) ∷ (text "B", 1) ∷ []

abbrev short : VersionVector
short = (text "A", 1) ∷ []

low_first : check_conflict_version low high ≡ earlier
unfolding comparison
low_first = refl

high_first : check_conflict_version high low ≡ latest
unfolding comparison
high_first = refl

both_ways : check_conflict_version low aside ≡ conflict
unfolding comparison
both_ways = refl

low_again : check_conflict_version low low ≡ same
unfolding comparison
low_again = refl

low-IsDistinct : IsDistinct low
unfolding contains text_eq keys
low-IsDistinct = (refl, (refl, tt))

high-IsDistinct : IsDistinct high
unfolding contains text_eq keys
high-IsDistinct = (refl, (refl, tt))

not_nil : (p : Text × ℕ) (v : VersionVector) → p ∷ v ≢ []
not_nil p v h = cc

check_conflict_version-eq-reference_example : check_conflict_version low high ≡ reference low high
check_conflict_version-eq-reference_example = check_conflict_version-eq-reference low high

latest_iff_example : (check_conflict_version high low ≡ latest) ↔ (Le low high × ¬ Le high low)
latest_iff_example = latest_iff high low high-IsDistinct low-IsDistinct (not_nil _ _)

short_lacks : lookup (text "B") short ≡ none
unfolding lookup text_eq
short_lacks = refl

low_has : lookup (text "B") low ≡ some 2
unfolding lookup text_eq
low_has = refl

check_conflict_version-missing_example : check_conflict_version short low ≡ conflict
check_conflict_version-missing_example =
    check_conflict_version-missing short low (text "B") 2 (not_nil _ _) short_lacks low_has

low_room : count_of (lookup (text "B") low) + 1 < u64
unfolding lookup text_eq
low_room = omega arith

low_below : Le low low
low_below s n h = (n, h, omega arith)

update_version-latest_example : check_conflict_version (update_version low (text "B")) low ≡ latest
update_version-latest_example =
    update_version-latest low low (text "B") low-IsDistinct low-IsDistinct low_room low_below

-- three answers, of which the first is old, and the second stands twice
abbrev old : Versioned
old = (text "x", low)

abbrev left : Versioned
left = (text "y", high)

abbrev right : Versioned
right = (text "z", aside)

abbrev answers : List Versioned
answers = old ∷ left ∷ right ∷ left ∷ []

two_left : get_latest_data answers ≡ left ∷ right ∷ []
unfolding selection
two_left = refl

remove_unconflict_data-filter_example :
    remove_unconflict_data answers ≡ filter (λ x. not (outdated answers x)) answers
remove_unconflict_data-filter_example = remove_unconflict_data-filter answers

get_latest_data_lem_example :
    NoRepeat (get_latest_data answers)
    × ((a : Versioned)
        → In a (get_latest_data answers) ↔ (
            In a answers
            × ((b : Versioned) → In b answers → check_conflict_version a.1 b.1 ≢ earlier)))
get_latest_data_lem_example = get_latest_data_lem answers

abbrev pair : List Versioned
pair = old ∷ left ∷ []

pair-IsDistinct : (d : Versioned) → In d pair → IsDistinct d.1
pair-IsDistinct d here = low-IsDistinct
pair-IsDistinct d (there here) = high-IsDistinct
pair-IsDistinct d (there (there i)) = elim i [ ]

get_latest_data-ne-nil_example : (a : Versioned) × In a (get_latest_data pair)
get_latest_data-ne-nil_example = get_latest_data-ne-nil old (left ∷ []) pair-IsDistinct

nil_first : Earlier [] low
unfolding check_conflict_version
nil_first = refl

Earlier-trans_example : Earlier [] high
Earlier-trans_example =
    Earlier-trans [] low high tt low-IsDistinct high-IsDistinct nil_first low_first

reconciled : reconcile_version (left ∷ right ∷ []) ≡ (text "A", 2) ∷ (text "B", 3) ∷ []
unfolding merging
reconciled = refl

reconcile_version-join_example :
    Le (reconcile_version pair) high ↔ ((d : Versioned) → In d pair → Le d.1 high)
reconcile_version-join_example = reconcile_version-join pair high pair-IsDistinct

pair_room : count_of (lookup (text "A") (reconcile_version pair)) + 1 < u64
unfolding merging
pair_room = omega arith

reconcile_version-supersedes_example :
    check_conflict_version (update_version (reconcile_version pair) (text "A")) high ≡ latest
reconcile_version-supersedes_example =
    reconcile_version-supersedes pair left (text "A") (there here) high-IsDistinct pair_room

lookup-update_version_example : lookup (text "A") (update_version low (text "B")) ≡ (
    if text_eq (text "B") (text "A")
    then some ((count_of (lookup (text "B") low) + 1) % u64)
    else lookup (text "A") low)
lookup-update_version_example = lookup-update_version low (text "B") (text "A")

-- {A: 1, B: 1} is told to be earlier than {A: 2}, with which it is concurrent.
abbrev ahead_elsewhere : VersionVector
ahead_elsewhere = (text "A", 1) ∷ (text "B", 1) ∷ []

abbrev twice : VersionVector
twice = (text "A", 2) ∷ []

told_earlier : check_conflict_version ahead_elsewhere twice ≡ earlier
unfolding comparison
told_earlier = refl

ahead_elsewhere_once : IsDistinct ahead_elsewhere
unfolding comparison
ahead_elsewhere_once = (refl, (refl, tt))

twice_once : IsDistinct twice
unfolding comparison
twice_once = (refl, tt)

ahead_elsewhere_is_some : ahead_elsewhere ≢ []
ahead_elsewhere_is_some e = ground (arith, e)

twice_is_some : twice ≢ []
twice_is_some e = ground (arith, e)

earlier_iff_example :
    (check_conflict_version ahead_elsewhere twice ≡ earlier)
    ↔ (NowhereAhead ahead_elsewhere twice × ¬ Le twice ahead_elsewhere)
earlier_iff_example =
    earlier_iff ahead_elsewhere twice ahead_elsewhere_once twice_once ahead_elsewhere_is_some
      twice_is_some
