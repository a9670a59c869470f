-- ===== src/Encoder/Stream.antt =====
-- encode of example/main.cpp: the loop that reads a stream by buffers, and what it encodes.
use cs739_cloud_native.Common.{
  ℕ, zero, suc, ◌+◌, ◌/◌, ◌*◌, ◌<◌, ◌≤◌, ◌++◌, ltb, true, false, none, some, List, [], ◌∷◌, length,
  take, Text, ◌≡◌, ◌⊎◌, inl, inr, refl, sym, ap, ◌∙◌, arith,
}
use cs739_cloud_native.StateMachine.Words.{append_assoc, append-nil}
use cs739_cloud_native.Encoder.{
  drop, IoStream, good, tellp, seekg_beg, read, buffer_size, read_bits, encode,
}

module _ {ℓ} {A : Type ℓ} where
  drop-nil : (n : ℕ) → drop {A = A} n [] ≡ []
  drop-nil zero = refl
  drop-nil (suc n) = refl

  drop-add : (p n : ℕ) (xs : List A) → drop (p + n) xs ≡ drop n (drop p xs)
  drop-add zero n xs = let e : 0 + n ≡ n = omega arith in ap (λ k. drop k xs) e
  drop-add (suc p) n [] =
      let e : suc p + n ≡ suc (p + n) = omega arith in ap (λ k. drop k []) e ∙ sym (drop-nil n)
  drop-add (suc p) n (x ∷ xs) =
      let e : suc p + n ≡ suc (p + n) = omega arith in ap (λ k. drop k (x ∷ xs)) e ∙ drop-add p n xs

  drop_beyond : (p : ℕ) (xs : List A) → length xs ≤ p → drop p xs ≡ []
  drop_beyond zero [] h = refl
  drop_beyond zero (x ∷ xs) h = absurd (omega (arith, h))
  drop_beyond (suc p) [] h = refl
  drop_beyond (suc p) (x ∷ xs) h = drop_beyond p xs (omega (arith, h))

  append-take-drop : (n : ℕ) (xs : List A) → take n xs ++ drop n xs ≡ xs
  append-take-drop zero xs = refl
  append-take-drop (suc n) [] = refl
  append-take-drop (suc n) (x ∷ xs) = ap (λ t. x ∷ t) (append-take-drop n xs)

  -- What is taken is all, or as long as was asked.
  take-cases :
      (n : ℕ) (xs : List A)
      → (length (take n xs) ≡ n) ⊎ ((length (take n xs) < n) × (take n xs ≡ xs))
  take-cases zero xs = inl refl
  take-cases (suc n) [] = inr (omega arith, refl)
  take-cases (suc n) (x ∷ xs) = elim (take-cases n xs) [
    | inl full ↦ inl (ap suc full)
    | inr (short, all) ↦ inr (omega (arith, short), ap (λ t. x ∷ t) all)
  ]

-- A stream that is not good ends the loop.
read_bits-stop :
    (fuel : ℕ) (s : IoStream) (bits : Text) → good s ≡ false → read_bits fuel s bits ≡ bits
unfolding read_bits
read_bits-stop zero s bits g = refl
read_bits-stop (suc fuel) s bits g = rw g refl

module _ (n : ℕ) (s : IoStream) (g : good s ≡ true) where
  -- A read that fills the buffer leaves a good stream, further on; one that does not has read all
  -- that is left.
  read_full :
      length (take n (drop s.position s.content)) ≡ n
      → read n s ≡ (
        take n (drop s.position s.content),
        record s { position = s.position + n; eof = false; fail = false },
      )
  unfolding read
  read_full full =
      let long : ltb (length (take n (drop s.position s.content))) n ≡ false =
        ground (arith, full) in
      rw (g, long, full) refl

  read_short :
      length (take n (drop s.position s.content)) < n
      → ((read n s).0 ≡ take n (drop s.position s.content)) × (good (read n s).1 ≡ false)
  unfolding read
  read_short short =
      let less : ltb (length (take n (drop s.position s.content))) n ≡ true =
        ground (arith, short) in
      (rw g refl, rw (g, less) refl)

read_bits-good :
    (fuel : ℕ) (s : IoStream) (bits : Text)
    → good s ≡ true
    → read_bits (suc fuel) s bits
      ≡ read_bits fuel (read buffer_size s).1 (bits ++ (read buffer_size s).0)
unfolding read_bits
read_bits-good fuel s bits g = rw g refl

-- The loop reads what is left, on fuel for each whole buffer of it and one more.
read_bits_lem :
    (fuel : ℕ) (s : IoStream) (bits : Text)
    → good s ≡ true
    → length s.content < s.position + fuel * buffer_size
    → read_bits fuel s bits ≡ bits ++ drop s.position s.content
read_bits_lem zero s bits g enough =
    unfold read_bits in
    rw (drop_beyond s.position s.content (omega (arith, enough))) (sym (append-nil bits))
read_bits_lem (suc fuel) s bits g enough =
    let q = drop s.position s.content in
    read_bits-good fuel s bits g ∙ (elim (take-cases buffer_size q) [
      | inl full ↦
          let s' : IoStream = record s {
            position = s.position + buffer_size;
            eof = false;
            fail = false;
          } in
          let bytes = take buffer_size q in
          ap (λ (r : Text × IoStream). read_bits fuel r.1 (bits ++ r.0))
            (read_full buffer_size s g full)
          ∙ (read_bits_lem fuel s' (bits ++ bytes) refl (omega (arith, enough))
              ∙ (append_assoc bits bytes _
                  ∙ ap (λ t. bits ++ t)
                      (ap (λ t. bytes ++ t) (drop-add s.position buffer_size s.content)
                        ∙ append-take-drop buffer_size q)))
      | inr (short, all) ↦
          let (got, ends) = read_short buffer_size s g short in
          read_bits-stop fuel _ _ ends ∙ ap (λ t. bits ++ t) (got ∙ all)
    ])

-- Where the stream has not failed, encode gives Base64 of all that it holds, whatever was read of
-- it before.
pub encode_lem :
    (base64_encode : Text → Text) (s : IoStream) (n : ℕ)
    → tellp s ≡ some n
    → encode base64_encode s ≡ some (base64_encode s.content)
unfolding encode
encode_lem base64_encode s n h =
    let stands : s.fail ≡ false = unfold tellp in ground (arith, h) in
    let from : IoStream = record s { eof = false; position = 0 } in
    let moved : seekg_beg s ≡ from = unfold seekg_beg in rw stands refl in
    let all : read_bits (suc (length s.content / buffer_size)) (seekg_beg s) [] ≡ s.content =
      ap (λ x. read_bits (suc (length s.content / buffer_size)) x []) moved
      ∙ read_bits_lem (suc (length s.content / buffer_size)) from [] (rw stands refl)
          (omega arith) in
    rw (encode, h) (ap (λ t. some (base64_encode t)) all)

pub encode_lost :
    (base64_encode : Text → Text) (s : IoStream) → tellp s ≡ none → encode base64_encode s ≡ none
unfolding encode
encode_lost base64_encode s h = rw (encode, h) refl
