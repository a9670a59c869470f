-- ===== src/StateMachine/RoundTrip.antt =====
-- The file of the state machine (src/state_machine.cpp): flush_to_disk, and read_file in a new
-- process.
use cs739_cloud_native.Common.{
  ◌≡◌, refl, ap, ◌∙◌, true, false, none, some, get_or, Option-cases, [], ◌∷◌, ◌++◌, arith, Text,
  text_eq, text_eq_iff, Assoc, lookup, insert, touch, keys, contains, lookup-insert,
  contains_of_lookup, if◌then◌else◌, Bool-cases, inl, inr,
}
use cs739_cloud_native.Versions.{VersionVector}
use cs739_cloud_native.StateMachine
use cs739_cloud_native.StateMachine.{
  StateMachine, print_entries, flush_to_disk, read_file, get_value, get_version,
}
use cs739_cloud_native.StateMachine.File.{Maps, print_entry, lines, read_lines}
use cs739_cloud_native.StateMachine.Store.{version-touch}
use cs739_cloud_native.StateMachine.Words.{IsWord}
use cs739_cloud_native.StateMachine.Printed.{IsPrintable, read_lines-print_entry}

-- Entries that the file can keep: words as keys and values, each key once, and versions that fit.
abbrev pub AreKept : Assoc Text → Assoc VersionVector → Type 0
AreKept [] versions = Unit {0}
AreKept ((key, value) ∷ rest) versions =
    (IsWord key
      × IsWord value
      × IsPrintable (get_or (lookup key versions) [])
      × (contains (keys rest) key ≡ false))
    × AreKept rest versions

-- what the maps read back hold, beside what they held before
record Restored (entries : Assoc Text) (vs : Assoc VersionVector) (before last : Maps)
    : Type 0 where
  values :
      (k : Text)
      → lookup k last.values
        ≡ elim (lookup k entries) [ some v ↦ some v | none ↦ lookup k before.values ]
  versions :
      (k : Text)
      → lookup k last.versions ≡ elim (lookup k entries) [
        | some v ↦ some (get_or (lookup k vs) [])
        | none ↦ lookup k before.versions
      ]

lookup-empty {ℓ} : {V : Type ℓ} (k : Text) → (let m : Assoc V = [] in lookup k m) ≡ none
unfolding lookup
lookup-empty k = refl

lookup-absent {ℓ} :
    {V : Type ℓ} (k : Text) (m : Assoc V) → contains (keys m) k ≡ false → lookup k m ≡ none
lookup-absent k m h = elim (Option-cases (lookup k m)) [
  | inl e ↦ e
  | inr (v, e) ↦ absurd (ground (arith, h, contains_of_lookup k m e))
]

lookup-cons :
    (k key value : Text) (rest : Assoc Text)
    → lookup k ((key, value) ∷ rest) ≡ (if text_eq key k then some value else lookup k rest)
unfolding lookup
lookup-cons k key value rest = refl

Restored-cons :
    (key value : Text) (rest : Assoc Text) (vs : Assoc VersionVector) (m last : Maps)
    → contains (keys rest) key ≡ false
    → Restored rest vs
        (record {
          values = insert key value m.values;
          versions = insert key (get_or (lookup key vs) []) m.versions;
        })
        last
    → Restored ((key, value) ∷ rest) vs m last
Restored-cons key value rest vs m last new r =
    let gone = lookup-absent key rest new in
    let v = get_or (lookup key vs) [] in
    record {
      values = λ k. elim (Bool-cases (text_eq key k)) [
        | inl hit ↦
            let e = (text_eq_iff key k).0 hit in
            ground (
              arith,
              e,
              r.values k,
              gone,
              lookup-insert key k value m.values,
              lookup-cons k key value rest,
            )
        | inr miss ↦
            ground
              (arith, r.values k, lookup-insert key k value m.values, lookup-cons k key value rest)
      ];
      versions = λ k. elim (Bool-cases (text_eq key k)) [
        | inl hit ↦
            let e = (text_eq_iff key k).0 hit in
            ground (
              arith,
              e,
              r.versions k,
              gone,
              lookup-insert key k v m.versions,
              lookup-cons k key value rest,
            )
        | inr miss ↦
            ground
              (arith, r.versions k, lookup-insert key k v m.versions, lookup-cons k key value rest)
      ];
    }

read_lines-print_entries :
    (entries : Assoc Text) (versions seen : Assoc VersionVector) (m : Maps)
    → AreKept entries versions
    → ((k : Text) → get_or (lookup k seen) [] ≡ get_or (lookup k versions) [])
    → (last : Maps) × (read_lines m (lines [] (print_entries entries seen).0) ≡ some last)
      × Restored entries versions m last
unfolding print_entries
read_lines-print_entries [] versions seen m h same = (
  m,
  unfold read_lines lines in refl,
  record { values = λ k. unfold lookup in refl; versions = λ k. unfold lookup in refl },
)
read_lines-print_entries ((key, value) ∷ rest) versions seen m h same =
    let seen' = touch key [] seen in
    let same' : (k : Text) → get_or (lookup k seen') [] ≡ get_or (lookup k versions) [] =
      λ k. version-touch key k seen ∙ same k in
    let v = get_or (lookup key versions) [] in
    let m' : Maps = record {
      values = insert key value m.values;
      versions = insert key v m.versions;
    } in
    let (last, read, r) = read_lines-print_entries rest versions seen' m' h.1 same' in
    let out = (print_entries rest seen').0 in
    (
      last,
      ap (λ u. read_lines m (lines [] (print_entry key value u ++ out))) (same' key)
          ∙ read_lines-print_entry m key value v out h.0.0 h.0.1 h.0.2
          ∙ read,
      Restored-cons key value rest versions m last h.0.3 r,
    )

-- A flush to a writable file, and read_file in a new process on that file: where each key is stored
-- once, keys and values are words, and versions are of uint64_t for servers whose names have no
-- space and no "@", the read succeeds, every key has the value that it had, and every key with a
-- value the version that it had.
pub read_file-flush_to_disk :
    (sm : StateMachine)
    → sm.disk.writable ≡ true
    → AreKept sm.value_store sm.version_store
    → (sm' : StateMachine) × (read_file (StateMachine.new (flush_to_disk sm).disk) ≡ some sm')
      × ((k : Text) → get_value sm' k ≡ get_value sm k)
      × ((k : Text)
          → get_version sm' k
            ≡ elim (lookup k sm.value_store) [ some v ↦ get_version sm k | none ↦ [] ])
unfolding read_file flush_to_disk get_value get_version
read_file-flush_to_disk sm can h =
    let (last, read, r) =
      read_lines-print_entries sm.value_store sm.version_store sm.version_store
        (record { values = []; versions = [] }) h (λ k. refl) in
    (
      record (StateMachine.new (flush_to_disk sm).disk) {
        value_store = last.values;
        version_store = last.versions;
      },
      rw (can, read) refl,
      λ k. ground (arith, r.values k, lookup-empty {V = Text} k),
      λ k. ground (arith, r.versions k, lookup-empty {V = VersionVector} k),
    )
