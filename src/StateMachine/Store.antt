-- ===== src/StateMachine/Store.antt =====
-- What `put` and `remove` of src/state_machine.cpp do to `get_value`, `get_version` and
-- `get_all_keys`, whatever becomes of the file.
use cs739_cloud_native.Common.{
  ◌≡◌, refl, ◌∙◌, some, get_or, [], ◌∷◌, arith, if◌then◌else◌, Text, text_eq, Assoc, lookup, touch,
  lookup-insert, lookup-insert_self, lookup-erase, lookup-touch,
}
use cs739_cloud_native.Versions.{VersionVector}
use cs739_cloud_native.StateMachine.{
  StateMachine, no_value, print_entries, flush_to_disk, get_value, get_version, put, remove,
}

-- A flush gives a missing version the empty vector, which `get_version` reads anyway.
pub version-touch :
    (key k : Text) (m : Assoc VersionVector)
    → get_or (lookup k (touch key [] m)) [] ≡ get_or (lookup k m) []
version-touch key k m = ground (arith, lookup-touch key k [] m)

version-print_entries :
    (values : Assoc Text) (versions : Assoc VersionVector) (k : Text)
    → get_or (lookup k (print_entries values versions).1) [] ≡ get_or (lookup k versions) []
unfolding print_entries
version-print_entries [] versions k = refl
version-print_entries ((key, value) ∷ rest) versions k =
    version-print_entries rest (touch key [] versions) k ∙ version-touch key k versions

pub version-flush :
    (sm : StateMachine) (k : Text) → get_version (flush_to_disk sm) k ≡ get_version sm k
unfolding flush_to_disk get_version
version-flush sm k = ground (arith, version-print_entries sm.value_store sm.version_store k)

pub values-flush : (sm : StateMachine) → (flush_to_disk sm).value_store ≡ sm.value_store
unfolding flush_to_disk
values-flush sm = ground arith

-- After a put, its key reads the new value, and every other key what it read before; the flush
-- that follows changes neither.
pub get_value-put :
    (sm : StateMachine) (key value : Text) (v : VersionVector) (k : Text)
    → get_value (put sm key value v) k ≡ (if text_eq key k then value else get_value sm k)
unfolding get_value put
get_value-put sm key value v k =
    rw values-flush (ground (arith, lookup-insert key k value sm.value_store))

-- After a put, its key has the new version, and every other key the version that it had, where a
-- key with none has the empty one.
pub get_version-put :
    (sm : StateMachine) (key value : Text) (v : VersionVector) (k : Text)
    → get_version (put sm key value v) k ≡ (if text_eq key k then v else get_version sm k)
unfolding put
get_version-put sm key value v k =
    rw version-flush (unfold get_version in ground (arith, lookup-insert key k v sm.version_store))

-- After a remove, its key reads NO_VALUE, and every other key what it read before.
pub get_value-remove :
    (sm : StateMachine) (key k : Text)
    → get_value (remove sm key) k ≡ (if text_eq key k then no_value else get_value sm k)
unfolding get_value remove
get_value-remove sm key k = rw values-flush (ground (arith, lookup-erase key k sm.value_store))

-- After a remove, its key has the empty version, and every other key the version that it had.
pub get_version-remove :
    (sm : StateMachine) (key k : Text)
    → get_version (remove sm key) k ≡ (if text_eq key k then [] else get_version sm k)
unfolding remove
get_version-remove sm key k =
    rw version-flush (unfold get_version in ground (arith, lookup-erase key k sm.version_store))

-- A value that has been put is in the map.
pub stored-put :
    (sm : StateMachine) (key value : Text) (v : VersionVector)
    → lookup key (put sm key value v).value_store ≡ some value
unfolding put
stored-put sm key value v = rw (values-flush, lookup-insert_self)

-- After a put, its key reads the new value under the new version, and every other key the value and
-- the version that it read before; the flush that follows changes neither.
pub put_lem :
    (sm : StateMachine) (key value : Text) (v : VersionVector) (k : Text)
    → (get_value (put sm key value v) k ≡ (if text_eq key k then value else get_value sm k))
      × (get_version (put sm key value v) k ≡ (if text_eq key k then v else get_version sm k))
put_lem sm key value v k = (get_value-put sm key value v k, get_version-put sm key value v k)

-- After a remove, its key reads NO_VALUE under the empty version, and every other key the value and
-- the version that it read before.
pub remove_lem :
    (sm : StateMachine) (key k : Text)
    → (get_value (remove sm key) k ≡ (if text_eq key k then no_value else get_value sm k))
      × (get_version (remove sm key) k ≡ (if text_eq key k then [] else get_version sm k))
remove_lem sm key k = (get_value-remove sm key k, get_version-remove sm key k)
