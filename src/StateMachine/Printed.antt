-- ===== src/StateMachine/Printed.antt =====
-- One entry of the file of the state machine (src/state_machine.cpp), as it is printed and read.
use cs739_cloud_native.Common.{
  ℕ, ◌<◌, ◌≡◌, refl, sym, ap, ◌∙◌, some, [], ◌∷◌, ◌++◌, map, Text, insert, print_u64,
}
use cs739_cloud_native.Versions.{VersionVector, u64}
use cs739_cloud_native.StateMachine.File.{
  is_space, Maps, print_versions, print_entry, tokens, lines, read_versions, read_line, read_lines,
}
use cs739_cloud_native.StateMachine.Numbers.{stoull-print_u64, digits_of-AreDigits}
use cs739_cloud_native.StateMachine.Words.{
  HasNoSpace, HasNoEnd, HasNoAt, IsWord, append_assoc, append-HasNoEnd, append-HasNoSpace,
  HasNoSpace-HasNoEnd, AreDigits-HasNoSpace, tokens-IsWord, lines-HasNoEnd, before_at-HasNoAt,
  after_at-HasNoAt,
}

-- a version vector whose servers have no space and no "@" in their names, with versions of uint64_t
abbrev pub IsPrintable : VersionVector → Type 0
IsPrintable [] = Unit {0}
IsPrintable ((s, n) ∷ v) = (HasNoSpace s × HasNoAt s × (n < u64)) × IsPrintable v

-- the token of one server
abbrev token : Text × ℕ → Text
token (s, n) = s ++ (b'@' ∷ print_u64 n)

digits-HasNoSpace : (n : ℕ) → HasNoSpace (print_u64 n)
unfolding print_u64
digits-HasNoSpace n = AreDigits-HasNoSpace _ (digits_of-AreDigits 20 n)

token-HasNoSpace : (s : Text) (n : ℕ) → HasNoSpace s → HasNoSpace (token (s, n))
unfolding is_space
token-HasNoSpace s n h = append-HasNoSpace s _ h (refl, digits-HasNoSpace n)

token-IsWord : (s : Text) (n : ℕ) → HasNoSpace s → IsWord (token (s, n))
token-IsWord [] n h = token-HasNoSpace [] n h
token-IsWord (c ∷ s) n h = token-HasNoSpace (c ∷ s) n h

print_versions-cons :
    (s : Text) (n : ℕ) (v : VersionVector)
    → print_versions ((s, n) ∷ v) ≡ token (s, n) ++ b' ' ∷ print_versions v
unfolding print_versions
print_versions-cons s n v = sym (append_assoc s (b'@' ∷ print_u64 n) (b' ' ∷ print_versions v))

tokens-print_versions :
    (v : VersionVector) → IsPrintable v → tokens [] (print_versions v) ≡ map token v
tokens-print_versions [] h = unfold print_versions tokens in refl
tokens-print_versions ((s, n) ∷ v) h =
    ap (tokens []) (print_versions-cons s n v)
    ∙ tokens-IsWord (token (s, n)) (print_versions v) (token-IsWord s n h.0.0)
    ∙ ap (λ ts. token (s, n) ∷ ts) (tokens-print_versions v h.1)

read_versions-tokens : (v : VersionVector) → IsPrintable v → read_versions (map token v) ≡ some v
unfolding read_versions
read_versions-tokens [] h = refl
read_versions-tokens ((s, n) ∷ v) h =
    rw
      (
        after_at-HasNoAt (token (s, n)) s (print_u64 n) h.0.1,
        stoull-print_u64 n h.0.2,
        read_versions-tokens v h.1,
        before_at-HasNoAt s (print_u64 n) h.0.1,
      )
      refl

print_versions-HasNoEnd : (v : VersionVector) → IsPrintable v → HasNoEnd (print_versions v)
print_versions-HasNoEnd [] h = unfold print_versions in tt
print_versions-HasNoEnd ((s, n) ∷ v) h = rw print_versions-cons (
    append-HasNoEnd (token (s, n)) _ (HasNoSpace-HasNoEnd _ (token-HasNoSpace s n h.0.0))
      (refl, print_versions-HasNoEnd v h.1))

-- a line without its end
abbrev line_of : Text → Text → VersionVector → Text
line_of key value v = key ++ b' ' ∷ (value ++ b' ' ∷ print_versions v)

print_entry-line_of :
    (key value : Text) (v : VersionVector) (rest : Text)
    → print_entry key value v ++ rest ≡ line_of key value v ++ 10 ∷ rest
unfolding print_entry
print_entry-line_of key value v rest =
    append_assoc key _ rest
    ∙ ap (λ t. key ++ b' ' ∷ t)
        (append_assoc value _ rest
          ∙ ap (λ t. value ++ b' ' ∷ t) (append_assoc (print_versions v) (10 ∷ []) rest)
          ∙ sym (append_assoc value (b' ' ∷ print_versions v) (10 ∷ rest)))
    ∙ sym (append_assoc key (b' ' ∷ (value ++ b' ' ∷ print_versions v)) (10 ∷ rest))

IsWord-HasNoSpace : (t : Text) → IsWord t → HasNoSpace t
IsWord-HasNoSpace [] h = absurd h
IsWord-HasNoSpace (c ∷ t) h = h

tokens-line_of :
    (key value : Text) (v : VersionVector)
    → IsWord key
    → IsWord value
    → IsPrintable v
    → tokens [] (line_of key value v) ≡ key ∷ value ∷ map token v
tokens-line_of key value v k l h =
    tokens-IsWord key _ k
    ∙ ap (λ ts. key ∷ ts)
        (tokens-IsWord value _ l ∙ ap (λ ts. value ∷ ts) (tokens-print_versions v h))

line_of-HasNoEnd :
    (key value : Text) (v : VersionVector)
    → IsWord key
    → IsWord value
    → IsPrintable v
    → HasNoEnd (line_of key value v)
line_of-HasNoEnd key value v k l h =
    append-HasNoEnd key _ (HasNoSpace-HasNoEnd key (IsWord-HasNoSpace key k)) (
      refl,
      append-HasNoEnd value _ (HasNoSpace-HasNoEnd value (IsWord-HasNoSpace value l))
          (refl, print_versions-HasNoEnd v h),
    )

-- One entry is read back.
read_line-line_of :
    (m : Maps) (key value : Text) (v : VersionVector)
    → IsPrintable v
    → read_line m (key ∷ value ∷ map token v)
      ≡ some (record { values = insert key value m.values; versions = insert key v m.versions })
unfolding read_line
read_line-line_of m key value v h = rw (read_versions-tokens v h) refl

pub read_lines-print_entry :
    (m : Maps) (key value : Text) (v : VersionVector) (rest : Text)
    → IsWord key
    → IsWord value
    → IsPrintable v
    → read_lines m (lines [] (print_entry key value v ++ rest))
      ≡ read_lines
          (record { values = insert key value m.values; versions = insert key v m.versions })
          (lines [] rest)
unfolding read_lines
read_lines-print_entry m key value v rest k l h =
    rw
      (
        print_entry-line_of key value v rest,
        lines-HasNoEnd [] (line_of key value v) rest (line_of-HasNoEnd key value v k l h),
        tokens-line_of key value v k l h,
        read_line-line_of m key value v h,
      )
      refl
