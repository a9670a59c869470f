-- ===== src/StateMachine/Words.antt =====
-- The words and the lines of the file of the state machine (src/state_machine.cpp).
use cs739_cloud_native.Common.{
  ℕ, ◌≡◌, refl, sym, ap, ◌∙◌, false, List, [], ◌∷◌, ◌++◌, arith, Text, ◌==◌,
}
use cs739_cloud_native.StateMachine.File.{is_space, is_digit, tokens, lines, before_at, after_at}
use cs739_cloud_native.StateMachine.Numbers.{AreDigits}

-- no character is a space
abbrev pub HasNoSpace : Text → Type 0
HasNoSpace [] = Unit {0}
HasNoSpace (c ∷ t) = (is_space c ≡ false) × HasNoSpace t

-- no character ends a line
abbrev pub HasNoEnd : Text → Type 0
HasNoEnd [] = Unit {0}
HasNoEnd (c ∷ t) = ((c == 10) ≡ false) × HasNoEnd t

abbrev pub HasNoAt : Text → Type 0
HasNoAt [] = Unit {0}
HasNoAt (c ∷ t) = ((c == b'@') ≡ false) × HasNoAt t

-- a word: no space, and at least one character
abbrev pub IsWord : Text → Type 0
IsWord [] = ⊥
IsWord (c ∷ t) = HasNoSpace (c ∷ t)

pub append_assoc {ℓ} : {A : Type ℓ} (a b c : List A) → (a ++ b) ++ c ≡ a ++ (b ++ c)
append_assoc [] b c = refl
append_assoc (x ∷ a) b c = ap (λ t. x ∷ t) (append_assoc a b c)

pub append-nil {ℓ} : {A : Type ℓ} (a : List A) → a ++ [] ≡ a
append-nil [] = refl
append-nil (x ∷ a) = ap (λ t. x ∷ t) (append-nil a)

pub append-HasNoEnd : (a b : Text) → HasNoEnd a → HasNoEnd b → HasNoEnd (a ++ b)
append-HasNoEnd [] b d e = e
append-HasNoEnd (c ∷ a) b d e = (d.0, append-HasNoEnd a b d.1 e)

pub append-HasNoSpace : (a b : Text) → HasNoSpace a → HasNoSpace b → HasNoSpace (a ++ b)
append-HasNoSpace [] b d e = e
append-HasNoSpace (c ∷ a) b d e = (d.0, append-HasNoSpace a b d.1 e)

pub HasNoSpace-HasNoEnd : (a : Text) → HasNoSpace a → HasNoEnd a
unfolding is_space
HasNoSpace-HasNoEnd [] d = tt
HasNoSpace-HasNoEnd (c ∷ a) d = (ground (arith, d.0), HasNoSpace-HasNoEnd a d.1)

pub AreDigits-HasNoSpace : (a : Text) → AreDigits a → HasNoSpace a
unfolding is_space is_digit
AreDigits-HasNoSpace [] d = tt
AreDigits-HasNoSpace (c ∷ a) d = (ground (arith, d.0), AreDigits-HasNoSpace a d.1)

tokens-letter :
    (b c : ℕ) (word rest : Text)
    → is_space c ≡ false
    → tokens (b ∷ word) (c ∷ rest) ≡ tokens (b ∷ word ++ c ∷ []) rest
unfolding tokens is_space
tokens-letter b c word rest d = ground (arith, d)

tokens-first :
    (c : ℕ) (rest : Text) → is_space c ≡ false → tokens [] (c ∷ rest) ≡ tokens (c ∷ []) rest
unfolding tokens is_space
tokens-first c rest d = ground (arith, d)

tokens-word :
    (word w rest : Text) (b : ℕ)
    → HasNoSpace w
    → tokens (b ∷ word) (w ++ b' ' ∷ rest) ≡ (b ∷ word ++ w) ∷ tokens [] rest
unfolding tokens
tokens-word word [] rest b d = ap (λ t. (b ∷ t) ∷ tokens [] rest) (sym (append-nil word))
tokens-word word (c ∷ w) rest b d =
    tokens-letter b c word (w ++ b' ' ∷ rest) d.0
    ∙ tokens-word (word ++ c ∷ []) w rest b d.1
    ∙ ap (λ t. (b ∷ t) ∷ tokens [] rest) (append_assoc word (c ∷ []) w)

-- A word is read up to the space after it.
pub tokens-IsWord : (w rest : Text) → IsWord w → tokens [] (w ++ b' ' ∷ rest) ≡ w ∷ tokens [] rest
unfolding tokens
tokens-IsWord [] rest d = absurd d
tokens-IsWord (c ∷ w) rest d = tokens-first c (w ++ b' ' ∷ rest) d.0 ∙ tokens-word [] w rest c d.1

lines-letter :
    (line : Text) (c : ℕ) (rest : Text)
    → (c == 10) ≡ false
    → lines line (c ∷ rest) ≡ lines (line ++ c ∷ []) rest
unfolding lines
lines-letter line c rest d = ground (arith, d)

-- A line is read up to its end.
pub lines-HasNoEnd :
    (line l rest : Text) → HasNoEnd l → lines line (l ++ 10 ∷ rest) ≡ (line ++ l) ∷ lines [] rest
unfolding lines
lines-HasNoEnd line [] rest d = ap (λ t. t ∷ lines [] rest) (sym (append-nil line))
lines-HasNoEnd line (c ∷ l) rest d =
    lines-letter line c (l ++ 10 ∷ rest) d.0
    ∙ lines-HasNoEnd (line ++ c ∷ []) l rest d.1
    ∙ ap (λ t. t ∷ lines [] rest) (append_assoc line (c ∷ []) l)

pub before_at-HasNoAt : (s t : Text) → HasNoAt s → before_at (s ++ b'@' ∷ t) ≡ s
unfolding before_at
before_at-HasNoAt [] t d = refl
before_at-HasNoAt (c ∷ s) t d = ground (arith, d.0, before_at-HasNoAt s t d.1)

pub after_at-HasNoAt : (whole s t : Text) → HasNoAt s → after_at whole (s ++ b'@' ∷ t) ≡ t
unfolding after_at
after_at-HasNoAt whole [] t d = refl
after_at-HasNoAt whole (c ∷ s) t d = ground (arith, d.0, after_at-HasNoAt whole s t d.1)
