-- ===== src/Tests/Stores.antt =====
-- Runs of the store of one process (src/state_machine.cpp).
use cs739_cloud_native.Common.{
  ◌≡◌, refl, true, none, some, [], ◌∷◌, if◌then◌else◌, text, text_eq, lookup, insert, erase, touch,
  print_u64, digits_of, keys, Text, List, arith, ◌-◌, ◌^◌, contains, AllDistinct,
}
use cs739_cloud_native.Versions.{VersionVector}
use cs739_cloud_native.StateMachine.{
  StateMachine, no_value, new, print_entries, flush_to_disk, get_value, get_version, put, remove,
  read_file,
}
use cs739_cloud_native.StateMachine.File.{
  print_versions, print_entry, is_space, is_digit, read_digits, read_unsigned, stoull, before_at,
  after_at, read_versions, tokens, lines, read_line, read_lines,
}
use cs739_cloud_native.StateMachine.Config.{
  emplace, emplace_all, get_nodes_config, print_addresses, write_nodes_config,
  get_nodes_config-write_nodes_config,
}
use cs739_cloud_native.StateMachine.RoundTrip.{AreKept, read_file-flush_to_disk}
use cs739_cloud_native.StateMachine.Store.{put_lem, remove_lem}

storage_runs : Unit {0}
unfolding text_eq lookup insert erase touch print_u64 digits_of print_versions print_entry
    print_entries flush_to_disk get_value get_version put remove
storage_runs = tt

abbrev pub sm : StateMachine
sm = new (record { writable = true; bytes = none })

abbrev pub one : VersionVector
one = (text "A", 1) ∷ []

abbrev pub after_put : StateMachine
after_put = put sm (text "k") (text "v") one

put_prints : after_put.disk.bytes ≡ some (text "k v A@1 \n")
unfolding storage_runs
put_prints = refl

remove_empties : (remove after_put (text "k")).disk.bytes ≡ some []
unfolding storage_runs
remove_empties = refl

put_lem_example :
    (get_value after_put (text "k")
      ≡ (if text_eq (text "k") (text "k") then text "v" else get_value sm (text "k")))
    × (get_version after_put (text "k")
        ≡ (if text_eq (text "k") (text "k") then one else get_version sm (text "k")))
put_lem_example = put_lem sm (text "k") (text "v") one (text "k")

remove_lem_example :
    (get_value (remove after_put (text "k")) (text "j")
      ≡ (if text_eq (text "k") (text "j") then no_value else get_value after_put (text "j")))
    × (get_version (remove after_put (text "k")) (text "j")
        ≡ (if text_eq (text "k") (text "j") then [] else get_version after_put (text "j")))
remove_lem_example = remove_lem after_put (text "k") (text "j")

restarts : Unit {0}
unfolding storage_runs is_space is_digit read_digits read_unsigned stoull before_at after_at
    read_versions tokens lines read_line read_lines read_file emplace emplace_all get_nodes_config
    print_addresses write_nodes_config contains
restarts = tt

pub after_put-AreKept : AreKept after_put.value_store after_put.version_store
unfolding restarts keys
after_put-AreKept =
    (((refl, tt), (refl, tt), (((refl, tt), (refl, tt), omega arith), tt), refl), tt)

pub can_write : after_put.disk.writable ≡ true
unfolding restarts keys
can_write = refl

read_file-flush_to_disk_example :
    (sm' : StateMachine) × (read_file (new (flush_to_disk after_put).disk) ≡ some sm')
    × ((k : Text) → get_value sm' k ≡ get_value after_put k)
    × ((k : Text)
        → get_version sm' k
          ≡ elim (lookup k after_put.value_store) [ some v ↦ get_version after_put k | none ↦ [] ])
read_file-flush_to_disk_example = read_file-flush_to_disk after_put can_write after_put-AreKept

-- a file with a negative version, which std::stoull takes modulo 2^64
abbrev negative : StateMachine
negative = new (record { writable = true; bytes = some (text "k v A@-1 \n") })

abbrev was_read : StateMachine
was_read = record negative {
  value_store = (text "k", text "v") ∷ [];
  version_store = (text "k", (text "A", 2 ^ 64 - 1) ∷ []) ∷ [];
}

negative_is_read : read_file negative ≡ some was_read
unfolding restarts keys
negative_is_read = refl

abbrev pub config : List Text
config = text "A" ∷ text "B" ∷ []

config-AllDistinct : AllDistinct config
unfolding restarts keys
config-AllDistinct = (refl, (refl, tt))

config_returns :
    get_nodes_config (write_nodes_config config (record { writable = true; bytes = none })) ≡ config
config_returns =
    get_nodes_config-write_nodes_config config (record { writable = true; bytes = none }) refl
      config-AllDistinct ((refl, tt), ((refl, tt), tt))
