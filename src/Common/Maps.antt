-- ===== src/Common/Maps.antt =====
-- std::unordered_map<std::string, V>: an association list. The place of an entry stands for its
-- place in the order of iteration, which the language leaves open: a new key may come anywhere, and
-- here comes last. The results about it are about lookups and membership.
use mathlib.Core.Path.{◌≡◌, refl}
use mathlib.Core.Bool.{true, false}
use mathlib.Core.Logic.{inl, inr}
use mathlib.Core.List.{List, [], ◌∷◌}
use mathlib.Core.Option.{Option, none, some}
use native.Mathlib.Omega.{arith}
use cs739_cloud_native.Common.Tests.{if◌then◌else◌, Bool-cases}
use cs739_cloud_native.Common.Strings.{Text, text_eq, text_eq_iff, text_eq_refl, contains}
use cs739_cloud_native.Common.Lists.{In, here, there}

abbrev pub Assoc {ℓ} : Type ℓ → Type ℓ
Assoc V = List (Text × V)

module _ {ℓ} {V : Type ℓ} where
  -- m.find(k)
  unfoldable pub lookup : Text → Assoc V → Option V
  lookup k [] = none
  lookup k ((j, v) ∷ m) = if text_eq j k then some v else lookup k m

  -- m[k] = v
  unfoldable pub insert : Text → V → Assoc V → Assoc V
  insert k v [] = (k, v) ∷ []
  insert k v ((j, w) ∷ m) = if text_eq j k then (j, v) ∷ m else (j, w) ∷ insert k v m

  -- m.erase(k)
  unfoldable pub erase : Text → Assoc V → Assoc V
  erase k [] = []
  erase k ((j, v) ∷ m) = let rest = erase k m in if text_eq j k then rest else (j, v) ∷ rest

  -- m[k] read: a missing key is inserted with the value `d`
  unfoldable pub touch : Text → V → Assoc V → Assoc V
  touch k d m = elim (lookup k m) [ none ↦ insert k d m | some v ↦ m ]

  -- the keys in the order of iteration
  unfoldable pub keys : Assoc V → List Text
  keys [] = []
  keys ((j, v) ∷ m) = j ∷ keys m

  pub lookup-insert :
      (k j : Text) (v : V) (m : Assoc V)
      → lookup j (insert k v m) ≡ (if text_eq k j then some v else lookup j m)
  unfolding lookup insert
  lookup-insert k j v [] = refl
  lookup-insert k j v ((i, w) ∷ m) =
      ground (arith, text_eq_iff k j, text_eq_iff i k, text_eq_iff i j, lookup-insert k j v m)

  pub lookup-erase :
      (k j : Text) (m : Assoc V) → lookup j (erase k m) ≡ (if text_eq k j then none else lookup j m)
  unfolding lookup erase
  lookup-erase k j [] = ground arith
  lookup-erase k j ((i, w) ∷ m) =
      ground (arith, text_eq_iff k j, text_eq_iff i k, text_eq_iff i j, lookup-erase k j m)

  pub lookup-insert_self : (k : Text) (v : V) (m : Assoc V) → lookup k (insert k v m) ≡ some v
  lookup-insert_self k v m = rw (lookup-insert, text_eq_refl)

  pub lookup-erase_self : (k : Text) (m : Assoc V) → lookup k (erase k m) ≡ none
  lookup-erase_self k m = rw (lookup-erase, text_eq_refl)

  -- a read of `m[k]` changes no other key, and gives a missing one its default
  pub lookup-touch :
      (k j : Text) (d : V) (m : Assoc V)
      → lookup j (touch k d m)
        ≡ elim (lookup j m) [ some v ↦ some v | none ↦ if text_eq k j then some d else none ]
  unfolding touch
  lookup-touch k j d m = elim (Bool-cases (text_eq k j)) [
    | inl same ↦
        let e : k ≡ j = (text_eq_iff k j).0 same in
        rw (← e) (ground (arith, text_eq_refl k, lookup-insert k k d m))
    | inr other ↦ ground (arith, lookup-insert k j d m)
  ]

  pub In-keys_of_lookup : (k : Text) (m : Assoc V) {v : V} → lookup k m ≡ some v → In k (keys m)
  unfolding lookup keys
  In-keys_of_lookup k [] h = cc
  In-keys_of_lookup k ((j, w) ∷ m) h = elim (Bool-cases (text_eq j k)) [
    | inl same ↦ rw (← (text_eq_iff j k).0 same) here
    | inr other ↦ there (In-keys_of_lookup k m (rw other at h))
  ]

  -- the first entry of a key is among the entries
  pub In-of_lookup : (k : Text) (m : Assoc V) {v : V} → lookup k m ≡ some v → In (k, v) m
  unfolding lookup
  In-of_lookup k [] h = cc
  In-of_lookup k ((j, w) ∷ m) {v} h = elim (Bool-cases (text_eq j k)) [
    | inl hit ↦
        let e : j ≡ k = (text_eq_iff j k).0 hit in
        let f : w ≡ v = ground (arith) in rw (← e, ← f) here
    | inr miss ↦ there (In-of_lookup k m (rw miss at h))
  ]

  pub lookup_of_contains :
      (k : Text) (m : Assoc V) → contains (keys m) k ≡ true → (v : V) × (lookup k m ≡ some v)
  unfolding lookup keys contains
  lookup_of_contains k [] h = cc
  lookup_of_contains k ((j, w) ∷ m) h = elim (Bool-cases (text_eq j k)) [
    | inl hit ↦ (w, rw hit)
    | inr miss ↦ let (v, e) = lookup_of_contains k m (rw miss at h) in (v, rw miss e)
  ]

  pub contains_of_lookup :
      (k : Text) (m : Assoc V) {v : V} → lookup k m ≡ some v → contains (keys m) k ≡ true
  unfolding lookup keys contains
  contains_of_lookup k [] h = cc
  contains_of_lookup k ((j, w) ∷ m) h = elim (Bool-cases (text_eq j k)) [
    | inl hit ↦ rw hit
    | inr miss ↦ rw miss (contains_of_lookup k m (rw miss at h))
  ]

  pub contains_of_In : (k : Text) (m : Assoc V) {v : V} → In (k, v) m → contains (keys m) k ≡ true
  unfolding keys contains
  contains_of_In k [] i = elim i [ ]
  contains_of_In k ((j, w) ∷ m) here = rw (text_eq_refl j)
  contains_of_In k ((j, w) ∷ m) (there i) = ground (arith, contains_of_In k m i)

  -- no key has two entries
  abbrev pub IsDistinct : Assoc V → Type 0
  IsDistinct [] = Unit {0}
  IsDistinct ((j, w) ∷ m) = (contains (keys m) j ≡ false) × IsDistinct m

  keys-erase_absent :
      (k j : Text) (m : Assoc V)
      → contains (keys m) j ≡ false
      → contains (keys (erase k m)) j ≡ false
  unfolding keys erase contains
  keys-erase_absent k j [] h = refl
  keys-erase_absent k j ((i, w) ∷ m) h = ground (arith, h, keys-erase_absent k j m)

  pub erase-IsDistinct : (k : Text) (m : Assoc V) → IsDistinct m → IsDistinct (erase k m)
  unfolding erase
  erase-IsDistinct k [] d = tt
  erase-IsDistinct k ((j, w) ∷ m) d = elim (Bool-cases (text_eq j k)) [
    | inl hit ↦ rw hit (erase-IsDistinct k m d.1)
    | inr miss ↦ rw miss (keys-erase_absent k j m d.0, erase-IsDistinct k m d.1)
  ]

  pub lookup_of_In :
      (k : Text) (m : Assoc V) {v : V} → IsDistinct m → In (k, v) m → lookup k m ≡ some v
  unfolding lookup
  lookup_of_In k [] d i = elim i [ ]
  lookup_of_In k ((j, w) ∷ m) d here = rw (text_eq_refl j)
  lookup_of_In k ((j, w) ∷ m) d (there i) =
      ground (arith, contains_of_In k m i, text_eq_iff j k, lookup_of_In k m d.1 i)
