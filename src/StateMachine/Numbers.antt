-- ===== src/StateMachine/Numbers.antt =====
-- The numbers in the file of the state machine (src/state_machine.cpp): `<<` and std::stoull.
use cs739_cloud_native.Common.{
  ℕ, zero, suc, ◌+◌, ◌-◌, ◌*◌, ◌%◌, ◌/◌, ◌^◌, ◌<◌, ◌≡◌, refl, sym, ap, ◌∙◌, subst, true, some, [],
  ◌∷◌, ◌++◌, arith, Text, digits_of, print_u64, ltb, Bool-cases, inl, inr,
}
use cs739_cloud_native.Versions.{u64}
use cs739_cloud_native.StateMachine.File.{is_digit, read_digits, read_unsigned, stoull}

abbrev pub AreDigits : Text → Type 0
AreDigits [] = Unit {0}
AreDigits (c ∷ t) = (is_digit c ≡ true) × AreDigits t

append-AreDigits : (a b : Text) → AreDigits a → AreDigits b → AreDigits (a ++ b)
append-AreDigits [] b d e = e
append-AreDigits (c ∷ a) b d e = (d.0, append-AreDigits a b d.1 e)

is_digit_of : (n : ℕ) → n < 10 → is_digit (n + 48) ≡ true
unfolding is_digit
is_digit_of n h = ground arith

pub digits_of-AreDigits : (fuel n : ℕ) → AreDigits (digits_of fuel n)
unfolding digits_of
digits_of-AreDigits zero n = tt
digits_of-AreDigits (suc fuel) n = elim (Bool-cases (ltb n 10)) [
  | inl small ↦ rw small (is_digit_of n (ground arith), tt)
  | inr large ↦ rw large (
      append-AreDigits _ _ (digits_of-AreDigits fuel (n / 10))
        (is_digit_of (n % 10) (omega arith), tt))
]

read_digits-append :
    (acc : ℕ) (a b : Text)
    → AreDigits a
    → read_digits acc (a ++ b) ≡ read_digits (read_digits acc a) b
unfolding read_digits
read_digits-append acc [] b d = refl
read_digits-append acc (c ∷ a) b d =
    ground (arith, d.0, read_digits-append (acc * 10 + (c - 48)) a b d.1)

read_digits-one : (acc n : ℕ) → n < 10 → read_digits acc ((n + 48) ∷ []) ≡ acc * 10 + n
unfolding read_digits
read_digits-one acc n h = ground (arith, is_digit_of n h)

read_digits-digits_of : (fuel n : ℕ) → n < 10 ^ fuel → read_digits 0 (digits_of fuel n) ≡ n
unfolding digits_of
read_digits-digits_of zero n h = unfold read_digits in omega arith
read_digits-digits_of (suc fuel) n h = elim (Bool-cases (ltb n 10)) [
  | inl small ↦ rw small (read_digits-one 0 n (ground arith) ∙ omega arith)
  | inr large ↦
      let front = read_digits-digits_of fuel (n / 10) (omega arith) in
      let last =
        read_digits-append 0 (digits_of fuel (n / 10)) ((n % 10 + 48) ∷ [])
          (digits_of-AreDigits fuel (n / 10)) in
      rw (large, last, front, read_digits-one (n / 10) (n % 10) (omega arith)) (omega arith)
]

append-cons : (t : Text) (d : ℕ) → (c : ℕ) × (u : Text) × t ++ d ∷ [] ≡ c ∷ u
append-cons [] d = (d, [], refl)
append-cons (c ∷ t) d = (c, t ++ d ∷ [], refl)

digits_of-cons : (fuel n : ℕ) → (c : ℕ) × (t : Text) × digits_of (suc fuel) n ≡ c ∷ t
unfolding digits_of
digits_of-cons fuel n = elim (Bool-cases (ltb n 10)) [
  | inl small ↦ rw small (n + 48, [], refl)
  | inr large ↦ rw large (append-cons (digits_of fuel (n / 10)) (n % 10 + 48))
]

stoull-digits :
    (c : ℕ) (t : Text)
    → AreDigits (c ∷ t)
    → read_digits 0 (c ∷ t) < u64
    → stoull (c ∷ t) ≡ some (read_digits 0 (c ∷ t))
unfolding stoull read_unsigned is_digit
stoull-digits c t d h = ground (arith, d.0)

pub stoull-print_u64 : (n : ℕ) → n < u64 → stoull (print_u64 n) ≡ some n
stoull-print_u64 n h =
    let (c, t, e) = digits_of-cons 19 n in
    let e' : print_u64 n ≡ c ∷ t = unfold print_u64 in e in
    let back : read_digits 0 (c ∷ t) ≡ n =
      ap (read_digits 0) (sym e) ∙ read_digits-digits_of 20 n (omega (arith, h)) in
    rw (e', stoull-digits c t (subst AreDigits e (digits_of-AreDigits 20 n)) (rw back h), back) refl
