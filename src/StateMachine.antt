-- ===== src/StateMachine.antt =====
-- The class StateMachine of src/state_machine.h and src/state_machine.cpp: the two maps, and the
-- file that every change is flushed to. The version functions of the class are in Versions.
pub mod File
pub mod Store
pub mod Numbers
pub mod Words
pub mod Printed
pub mod RoundTrip
pub mod Config
use cs739_cloud_native.Common.{
  Bool, Option, none, some, get_or, List, [], ◌∷◌, ◌++◌, if◌then◌else◌, Text, text, Assoc, lookup,
  insert, erase, touch, keys,
}
use cs739_cloud_native.Versions.{VersionVector, ◌>>=◌}
use File.{Disk, Maps, print_entry, lines, read_lines}

abbrev pub no_value : Text
no_value = text "__NO_VALUE_"

pub record StateMachine : Type 0 where
  pub value_store : Assoc Text
  pub version_store : Assoc VersionVector
  pub disk : Disk

-- The constructor; the file is left as it is.
abbrev pub new : Disk → StateMachine
new disk = record { value_store = []; version_store = []; disk = disk }

-- The loop of `flush_to_disk` over the entries of `value_store`: what it writes, and the versions
-- as `version_store_[key]` leaves them, which inserts an empty vector for a missing key.
unfoldable pub print_entries : Assoc Text → Assoc VersionVector → Text × Assoc VersionVector
print_entries [] versions = ([], versions)
print_entries ((key, value) ∷ rest) versions =
    let versions' = touch key [] versions in
    let (out, last) = print_entries rest versions' in
    (print_entry key value (get_or (lookup key versions') []) ++ out, last)

unfoldable pub flush_to_disk : StateMachine → StateMachine
unfolding print_entries
flush_to_disk sm =
    if sm.disk.writable
    then (let (out, versions) = print_entries sm.value_store sm.version_store in
        record sm { version_store = versions; disk = record sm.disk { bytes = some out } })
    else sm

-- `none`: std::stoull throws, which nothing catches.
unfoldable pub read_file : StateMachine → Option StateMachine
read_file sm = elim sm.disk.bytes [
  | none ↦ some sm
  | some bytes ↦ do
    m ← read_lines (record { values = []; versions = [] }) (lines [] bytes)
    some (record sm { value_store = m.values; version_store = m.versions })
]

unfoldable pub get_all_keys : StateMachine → List Text
get_all_keys sm = keys sm.value_store

unfoldable pub get_value : StateMachine → Text → Text
get_value sm key = get_or (lookup key sm.value_store) no_value

unfoldable pub get_version : StateMachine → Text → VersionVector
get_version sm key = get_or (lookup key sm.version_store) []

unfoldable pub remove : StateMachine → Text → StateMachine
unfolding flush_to_disk
remove sm key = flush_to_disk (record sm {
  value_store = erase key sm.value_store;
  version_store = erase key sm.version_store;
})

unfoldable pub put : StateMachine → Text → Text → VersionVector → StateMachine
unfolding flush_to_disk
put sm key value server_info = flush_to_disk (record sm {
  value_store = insert key value sm.value_store;
  version_store = insert key server_info sm.version_store;
})
