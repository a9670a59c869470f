-- ===== src/StateMachine/Config.antt =====
-- The nodes configuration (get_nodes_config and write_nodes_config of src/state_machine.cpp): one
-- address on each line.
use cs739_cloud_native.Common.{
  ◌≡◌, refl, ap, ◌∙◌, sym, true, false, none, some, List, [], ◌∷◌, ◌++◌, arith, if◌then◌else◌, Text,
  contains, AllDistinct, subst, text_eq, text_eq_symm, contains-append,
}
use cs739_cloud_native.StateMachine.File.{Disk, lines}
use cs739_cloud_native.StateMachine.Words.{HasNoEnd, append_assoc, append-nil, lines-HasNoEnd}

-- server_addrs.emplace(line), for a set in the order of insertion
unfoldable pub emplace : List Text → Text → List Text
emplace set t = if contains set t then set else set ++ t ∷ []

-- The loop of `get_nodes_config`.
unfoldable pub emplace_all : List Text → List Text → List Text
unfolding emplace
emplace_all set [] = set
emplace_all set (line ∷ rest) = emplace_all (emplace set line) rest

-- A file that is not there gives no address.
unfoldable pub get_nodes_config : Disk → List Text
unfolding emplace_all
get_nodes_config nodes_config = elim nodes_config.bytes [
  | none ↦ []
  | some bytes ↦ emplace_all [] (lines [] bytes)
]

-- The loop of `write_nodes_config`: what it writes.
unfoldable pub print_addresses : List Text → Text
print_addresses [] = []
print_addresses (addr ∷ rest) = addr ++ 10 ∷ print_addresses rest

unfoldable pub write_nodes_config : List Text → Disk → Disk
unfolding print_addresses
write_nodes_config config nodes_config =
    if nodes_config.writable
    then record nodes_config { bytes = some (print_addresses config) }
    else nodes_config

-- every address is one line
abbrev pub AreLines : List Text → Type 0
AreLines [] = Unit {0}
AreLines (addr ∷ rest) = HasNoEnd addr × AreLines rest

lines-print_addresses :
    (config : List Text) → AreLines config → lines [] (print_addresses config) ≡ config
unfolding print_addresses
lines-print_addresses [] h = unfold lines in refl
lines-print_addresses (addr ∷ rest) h =
    lines-HasNoEnd [] addr (print_addresses rest) h.0
    ∙ ap (λ ls. addr ∷ ls) (lines-print_addresses rest h.1)

-- In a list with no text twice, the texts before one are others.
contains-before :
    (set ts : List Text) (t : Text) → AllDistinct (set ++ t ∷ ts) → contains set t ≡ false
unfolding contains
contains-before [] ts t d = refl
contains-before (x ∷ set) ts t d =
    let other : text_eq t x ≡ false = ground (arith, contains-append set (t ∷ ts) x, d.0) in
    ground (arith, text_eq_symm x t, other, contains-before set ts t d.1)

emplace_all-new : (set ts : List Text) → AllDistinct (set ++ ts) → emplace_all set ts ≡ set ++ ts
unfolding emplace_all
emplace_all-new set [] d = sym (append-nil set)
emplace_all-new set (t ∷ ts) d =
    let e = append_assoc set (t ∷ []) ts in
    let new : emplace set t ≡ set ++ t ∷ [] =
      unfold emplace in rw (contains-before set ts t d) refl in
    ap (λ xs. emplace_all xs ts) new
    ∙ emplace_all-new (set ++ t ∷ []) ts (subst AllDistinct (sym e) d)
    ∙ e

-- The addresses of a set, each one line, that a writable file is given are those that it gives
-- back.
pub get_nodes_config-write_nodes_config :
    (config : List Text) (file : Disk)
    → file.writable ≡ true
    → AllDistinct config
    → AreLines config
    → get_nodes_config (write_nodes_config config file) ≡ config
unfolding get_nodes_config write_nodes_config
get_nodes_config-write_nodes_config config file can d h =
    rw (can, lines-print_addresses config h) (emplace_all-new [] config d)
