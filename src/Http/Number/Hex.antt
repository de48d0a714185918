-- ===== src/Http/Number/Hex.antt =====
-- Hexadecimal text, as a sender writes the size of a chunk, and that `std::stoi` to base 16 reads it.
use uv_cpp.Prelude.{
  ℕ, zero, suc, ◌+◌, ◌-◌, ◌*◌, ◌/◌, ◌%◌, ◌^◌, ◌≤◌, ◌<◌, ◌≡◌, ◌≢◌, refl, ap, ◌∙◌, ◌⊎◌, Bool, true,
  false, Bytes, [], ◌∷◌, ltb, if◌then◌else◌, some, arith, Lacks, All, Bool-cases, inl, inr,
}
use uv_cpp.Http.Number.{
  pos, digit_value, is_space, scan, skip_prefix, magnitude, int_of, signed, stoi,
}

hex_digit : ℕ → ℕ
hex_digit d = if ltb d 10 then b'0' + d else b'a' + d - 10

-- The digits of `n` in front of `written`; `n` itself is fuel enough.
hex_digits : ℕ → ℕ → Bytes → Bytes
unfolding hex_digit
hex_digits zero n written = hex_digit (n % 16) ∷ written
hex_digits (suc fuel) n written =
    let more = hex_digits fuel (n / 16) (hex_digit (n % 16) ∷ written) in
    if ltb n 16 then hex_digit n ∷ written else more

unfoldable pub hex : ℕ → Bytes
unfolding hex_digits
hex n = hex_digits n n []

abbrev IsHexDigit : ℕ → Type 0
IsHexDigit c = ((b'0' ≤ c) × (c ≤ b'9')) ⊎ ((b'a' ≤ c) × (c ≤ b'f'))

hex_digit-IsHexDigit : (d : ℕ) → d < 16 → IsHexDigit (hex_digit d)
unfolding hex_digit
hex_digit-IsHexDigit d h = elim (Bool-cases (ltb d 10)) [
  | inl e ↦ rw (e, hex_digit) (inl (ground arith, ground arith))
  | inr e ↦ rw (e, hex_digit) (inr (ground arith, ground arith))
]

scan-hex_digit :
    (d : ℕ) (s : Bytes) (n : ℕ) (seen : Bool)
    → d < 16
    → scan 16 (hex_digit d ∷ s) n seen ≡ scan 16 s (n * 16 + d) true
unfolding scan digit_value hex_digit
scan-hex_digit d s n seen h = ground arith

scan-hex_digits :
    (fuel n : ℕ) (written : Bytes)
    → n ≤ fuel
    → scan 16 (hex_digits fuel n written) 0 false ≡ scan 16 written n true
unfolding hex_digits
scan-hex_digits zero n written h =
    scan-hex_digit (n % 16) written 0 false (omega arith)
    ∙ ap (λ k. scan 16 written k true) (omega arith)
scan-hex_digits (suc fuel) n written h =
    let d = hex_digit (n % 16) ∷ written in
    let step : scan 16 d (n / 16) true ≡ scan 16 written n true =
      scan-hex_digit (n % 16) written (n / 16) true (omega arith)
      ∙ ap (λ k. scan 16 written k true) (omega arith) in
    ground (arith, scan-hex_digit n written 0 false, scan-hex_digits fuel (n / 16) d, step)

hex_digits-All :
    (fuel n : ℕ) (written : Bytes)
    → All IsHexDigit written
    → All IsHexDigit (hex_digits fuel n written)
unfolding hex_digits
hex_digits-All zero n written h = (hex_digit-IsHexDigit (n % 16) (omega arith), h)
hex_digits-All (suc fuel) n written h =
    let digit = hex_digit-IsHexDigit (n % 16) (omega arith) in
    elim (Bool-cases (ltb n 16)) [
      | inl few ↦ rw (few, hex_digits) (hex_digit-IsHexDigit n (ground arith), h)
      | inr many ↦
          rw (many, hex_digits)
            (hex_digits-All fuel (n / 16) (hex_digit (n % 16) ∷ written) (digit, h))
    ]

hex_digits-ne_nil : (fuel n : ℕ) (written : Bytes) → hex_digits fuel n written ≢ []
unfolding hex_digits
hex_digits-ne_nil zero n written = λ e. cc
hex_digits-ne_nil (suc fuel) n written =
    ground (arith, hex_digits-ne_nil fuel (n / 16) (hex_digit (n % 16) ∷ written))

-- Hexadecimal digits are no prefix `0x`.
skip_prefix-hex : (s : Bytes) → All IsHexDigit s → skip_prefix 16 s ≡ s
unfolding skip_prefix
skip_prefix-hex [] h = refl
skip_prefix-hex (z ∷ []) h = refl
skip_prefix-hex (z ∷ x ∷ []) h = refl
skip_prefix-hex (z ∷ x ∷ d ∷ s) h = let x_digit = h.1.0 in ground (arith, x_digit)

stoi-hex_digits :
    (s : Bytes) → s ≢ [] → All IsHexDigit s → stoi 16 s ≡ int_of false (scan 16 s 0 false)
unfolding stoi signed magnitude is_space
stoi-hex_digits [] ne h = absurd (ne refl)
stoi-hex_digits (c ∷ s) ne h =
    let digit = h.0 in rw (skip_prefix-hex (c ∷ s) h) (ground (arith, digit))

-- A number that an `int` holds is read back from its hexadecimal text.
pub stoi-hex : (n : ℕ) → n < 2 ^ 31 → stoi 16 (hex n) ≡ some (pos n)
unfolding hex
stoi-hex n h =
    stoi-hex_digits (hex_digits n n []) (hex_digits-ne_nil n n []) (hex_digits-All n n [] tt)
    ∙ (ap (int_of false) (scan-hex_digits n n [] (omega arith)) ∙ unfold scan in ground arith)

All-Lacks : (s : Bytes) → All IsHexDigit s → Lacks b'\r' s
All-Lacks [] h = tt
All-Lacks (c ∷ s) h = ((λ e. absurd (ground (arith, h.0, e))), All-Lacks s h.1)

-- The text of a number can stand as a line of its own.
pub hex_line : (n : ℕ) → (c : ℕ) × (s : Bytes) × (hex n ≡ c ∷ s) × Lacks b'\r' (c ∷ s)
unfolding hex
hex_line n =
    split (hex_digits n n []) (hex_digits-ne_nil n n []) (All-Lacks _ (hex_digits-All n n [] tt))
  where
    split :
        (t : Bytes)
        → t ≢ []
        → Lacks b'\r' t
        → (c : ℕ) × (s : Bytes) × (t ≡ c ∷ s) × Lacks b'\r' (c ∷ s)
    split [] ne h = absurd (ne refl)
    split (c ∷ s) ne h = (c, s, refl, h)
