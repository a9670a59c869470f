-- ===== src/Membership/Readings.antt =====
-- What the processes hold under the keys, as keys change hands (src/gossip_node.cpp).
use cs739_cloud_native.Common.{
  ◌≡◌, refl, sym, ap₂, ◌∙◌, subst, false, Option, none, some, arith, Text, text_eq, text_eq_refl,
  lookup, IsDistinct, erase, erase-IsDistinct, lookup-erase, lookup-erase_self,
}
use cs739_cloud_native.Versions.{VersionVector}
use cs739_cloud_native.StateMachine
use cs739_cloud_native.StateMachine.{StateMachine}
use cs739_cloud_native.StateMachine.Store.{
  get_value-put, get_version-put, get_value-remove, get_version-remove, values-flush,
}
use cs739_cloud_native.Cluster.{World}
use cs739_cloud_native.Cluster.Frame.{store_of}

-- the value and the version that a store reads for a key
abbrev pub reading : StateMachine → Text → Text × VersionVector
reading sm key = (StateMachine.get_value sm key, StateMachine.get_version sm key)

abbrev pub reading_of : Option StateMachine → Text → Option (Text × VersionVector)
reading_of none key = none
reading_of (some sm) key = some (reading sm key)

-- what a process holds under a key, if it runs
abbrev pub held : World → Text → Text → Option (Text × VersionVector)
held w a key = reading_of (store_of w a) key

pub reading-put :
    (sm : StateMachine) (key value : Text) (v : VersionVector) (k : Text)
    → text_eq key k ≡ false
    → reading (StateMachine.put sm key value v) k ≡ reading sm k
reading-put sm key value v k other =
    ap₂ (λ x y. (x, y)) (get_value-put sm key value v k ∙ rw other refl)
      (get_version-put sm key value v k ∙ rw other refl)

pub reading-put_same :
    (sm : StateMachine) (key value : Text) (v : VersionVector)
    → reading (StateMachine.put sm key value v) key ≡ (value, v)
reading-put_same sm key value v =
    ap₂ (λ x y. (x, y)) (get_value-put sm key value v key ∙ rw text_eq_refl refl)
      (get_version-put sm key value v key ∙ rw text_eq_refl refl)

pub reading-remove :
    (sm : StateMachine) (key k : Text)
    → text_eq key k ≡ false
    → reading (StateMachine.remove sm key) k ≡ reading sm k
reading-remove sm key k other =
    ap₂ (λ x y. (x, y)) (get_value-remove sm key k ∙ rw other refl)
      (get_version-remove sm key k ∙ rw other refl)

-- A process, if it runs, stores nothing under a key.
abbrev pub Absent : World → Text → Text → Type 0
Absent w a k = (sm : StateMachine) → store_of w a ≡ some sm → lookup k sm.value_store ≡ none

-- A process, if it runs, stores each key once.
abbrev pub KeysOnce : World → Text → Type 0
KeysOnce w a = (sm : StateMachine) → store_of w a ≡ some sm → IsDistinct sm.value_store

-- What a process stores has no new key.
pub record Shrunk (this : Text) (w u : World) : Type 0 where
  pub absent : (k : Text) → Absent w this k → Absent u this k
  pub once : KeysOnce w this → KeysOnce u this

pub Shrunk-same : (this : Text) (w u : World) → store_of u this ≡ store_of w this → Shrunk this w u
Shrunk-same this w u e = record {
  absent = λ k gone sm h. gone sm (sym e ∙ h);
  once = λ once sm h. once sm (sym e ∙ h);
}

pub Shrunk-trans :
    (this : Text) (w v u : World) → Shrunk this w v → Shrunk this v u → Shrunk this w u
Shrunk-trans this w v u x y = record {
  absent = λ k gone. y.absent k (x.absent k gone);
  once = λ once. y.once (x.once once);
}

value_store-remove :
    (sm : StateMachine) (key : Text)
    → (StateMachine.remove sm key).value_store ≡ erase key sm.value_store
unfolding StateMachine.remove
value_store-remove sm key = values-flush _

-- A process that removes a key.
module _ (this key : Text) (w u : World) (sm : StateMachine) (before : store_of w this ≡ some sm)
    (after : store_of u this ≡ some (StateMachine.remove sm key)) where
  pub Shrunk-remove : Shrunk this w u
  Shrunk-remove = record {
    absent = λ k gone sm' h.
        let e : StateMachine.remove sm key ≡ sm' = ground (arith, after, h) in
        subst (λ (x : StateMachine). lookup k x.value_store ≡ none) e
          (rw value_store-remove
            (ground (arith, lookup-erase key k sm.value_store, gone sm before)));
    once = λ once sm' h.
        let e : StateMachine.remove sm key ≡ sm' = ground (arith, after, h) in
        subst (λ (x : StateMachine). IsDistinct x.value_store) e
          (rw value_store-remove (erase-IsDistinct key sm.value_store (once sm before)));
  }

  pub Absent-remove : Absent u this key
  Absent-remove sm' h =
      let e : StateMachine.remove sm key ≡ sm' = ground (arith, after, h) in
      subst (λ (x : StateMachine). lookup key x.value_store ≡ none) e
        (rw value_store-remove (lookup-erase_self key sm.value_store))
