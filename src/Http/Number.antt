-- ===== src/Http/Number.antt =====
-- `std::stoi` and `std::to_string` as the source uses them. `none` is the exception that is thrown
-- for text without a number, or for a number that is no `int`.
pub mod Hex
use uv_cpp.Prelude.{
  ◌≢◌, Lacks, ℕ, zero, suc, ◌+◌, ◌-◌, ◌*◌, ◌/◌, ◌%◌, ◌^◌, ◌≤◌, ◌<◌, ◌≡◌, refl, ◌∙◌, ap, Bool, true,
  false, ◌&&◌, ◌||◌, Bytes, [], ◌∷◌, ltb, leb, ◌==◌, if◌then◌else◌, Option, none, some, arith,
  u64_mod, Bool-cases, inl, inr,
}

-- `negsuc n` is -(n + 1).
pub data ℤ : Type 0 where
  pos : ℕ → ℤ
  negsuc : ℕ → ℤ

-- The conversion of an `int` to `uint64_t`.
unfoldable pub to_u64 : ℤ → ℕ
to_u64 (pos n) = n % u64_mod
to_u64 (negsuc n) = u64_mod - 1 - n

pub is_space : ℕ → Bool
is_space c = c == b' ' || (leb b'\t' c && leb c b'\r')

-- The value of a digit in some base up to 16; other bytes have a value above every base.
pub digit_value : ℕ → ℕ
digit_value c =
    if leb b'0' c && leb c b'9'
    then c - b'0'
    else if leb b'a' c && leb c b'f'
    then c - b'a' + 10
    else if leb b'A' c && leb c b'F'
    then c - b'A' + 10
    else 16

-- The digits up to the first byte that is none; `seen` says whether there has been one.
pub scan : ℕ → Bytes → ℕ → Bool → Option ℕ
scan base [] n seen = if seen then some n else none
scan base (c ∷ s) n seen =
    let rest = scan base s (n * base + digit_value c) true in
    if ltb (digit_value c) base then rest else if seen then some n else none

pub skip_prefix : ℕ → Bytes → Bytes
skip_prefix base (z ∷ x ∷ d ∷ s) =
    if base == 16 && (z == b'0' && ((x == b'x' || x == b'X') && ltb (digit_value d) 16))
    then d ∷ s
    else z ∷ x ∷ d ∷ s
skip_prefix base s = s

pub magnitude : ℕ → Bytes → Option ℕ
unfolding skip_prefix scan digit_value
magnitude base s = scan base (skip_prefix base s) 0 false

abbrev pub int_of : Bool → Option ℕ → Option ℤ
int_of minus none = none
int_of false (some n) = if ltb n (2 ^ 31) then some (pos n) else none
int_of true (some zero) = some (pos 0)
int_of true (some (suc n)) = if ltb n (2 ^ 31) then some (negsuc n) else none

pub signed : ℕ → Bytes → Option ℤ
unfolding magnitude
signed base [] = none
signed base (c ∷ s) =
    if c == b'-'
    then int_of true (magnitude base s)
    else if c == b'+'
    then int_of false (magnitude base s)
    else int_of false (magnitude base (c ∷ s))

-- `std::stoi(s, nullptr, base)` for the bases 10 and 16.
unfoldable pub stoi : ℕ → Bytes → Option ℤ
unfolding signed is_space
stoi base [] = none
stoi base (c ∷ s) = if is_space c then stoi base s else signed base (c ∷ s)

-- The digits of `n` in front of `written`; `n` itself is fuel enough.
decimal : ℕ → ℕ → Bytes → Bytes
decimal zero n written = (b'0' + n % 10) ∷ written
decimal (suc fuel) n written =
    let more = decimal fuel (n / 10) ((b'0' + n % 10) ∷ written) in
    if ltb n 10 then (b'0' + n) ∷ written else more

-- `std::to_string` of an `int`
unfoldable pub to_string : ℤ → Bytes
unfolding decimal
to_string (pos n) = decimal n n []
to_string (negsuc n) = b'-' ∷ decimal (suc n) (suc n) []

-- The text begins with a decimal digit.
abbrev StartsDigit : Bytes → Type 0
StartsDigit [] = ⊥
StartsDigit (c ∷ s) = (b'0' ≤ c) × (c ≤ b'9')

scan-digit :
    (c : ℕ) (s : Bytes) (n : ℕ) (seen : Bool)
    → c < 10
    → scan 10 ((b'0' + c) ∷ s) n seen ≡ scan 10 s (n * 10 + c) true
unfolding scan digit_value
scan-digit c s n seen h = ground arith

scan-decimal :
    (fuel n : ℕ) (written : Bytes)
    → n ≤ fuel
    → scan 10 (decimal fuel n written) 0 false ≡ scan 10 written n true
unfolding decimal
scan-decimal zero n written h =
    scan-digit (n % 10) written 0 false (omega arith)
    ∙ ap (λ k. scan 10 written k true) (omega arith)
scan-decimal (suc fuel) n written h =
    let d = (b'0' + n % 10) ∷ written in
    let step : scan 10 d (n / 10) true ≡ scan 10 written n true =
      scan-digit (n % 10) written (n / 10) true (omega arith)
      ∙ ap (λ k. scan 10 written k true) (omega arith) in
    ground (arith, scan-digit n written 0 false, scan-decimal fuel (n / 10) d, step)

decimal-StartsDigit : (fuel n : ℕ) (written : Bytes) → StartsDigit (decimal fuel n written)
unfolding decimal
decimal-StartsDigit zero n written = omega arith
decimal-StartsDigit (suc fuel) n written =
    ground (arith, decimal-StartsDigit fuel (n / 10) ((b'0' + n % 10) ∷ written))

skip_prefix_ten : (s : Bytes) → skip_prefix 10 s ≡ s
unfolding skip_prefix
skip_prefix_ten [] = refl
skip_prefix_ten (z ∷ []) = refl
skip_prefix_ten (z ∷ x ∷ []) = refl
skip_prefix_ten (z ∷ x ∷ d ∷ s) = refl

stoi-StartsDigit : (s : Bytes) → StartsDigit s → stoi 10 s ≡ int_of false (scan 10 s 0 false)
unfolding stoi signed magnitude is_space
stoi-StartsDigit [] h = absurd h
stoi-StartsDigit (c ∷ s) h = rw skip_prefix_ten (ground arith)

-- A number that an `int` holds, and that is not negative, is read back from its decimal text.
pub stoi-to_string : (n : ℕ) → n < 2 ^ 31 → stoi 10 (to_string (pos n)) ≡ some (pos n)
unfolding to_string
stoi-to_string n h =
    stoi-StartsDigit (decimal n n []) (decimal-StartsDigit n n [])
    ∙ (ap (int_of false) (scan-decimal n n [] (omega arith)) ∙ unfold scan in ground arith)

int_of_bound : (o : Option ℕ) (n : ℤ) → int_of false o ≡ some n → to_u64 n < 2 ^ 31
unfolding to_u64
int_of_bound none n h = cc
int_of_bound (some m) n h = ground arith

-- Text without a minus sign gives no negative number.
pub stoi_bound :
    (base : ℕ) (s : Bytes) (n : ℤ) → Lacks b'-' s → stoi base s ≡ some n → to_u64 n < 2 ^ 31
unfolding stoi signed
stoi_bound base [] n l h = cc
stoi_bound base (c ∷ s) n l h = ground (
  arith,
  stoi_bound base s n l.1,
  int_of_bound (magnitude base s) n,
  int_of_bound (magnitude base (c ∷ s)) n,
)

decimal-Lacks :
    (b fuel n : ℕ) (written : Bytes)
    → leb b'0' b && leb b b'9' ≡ false
    → Lacks b written
    → Lacks b (decimal fuel n written)
unfolding decimal
decimal-Lacks b zero n written h l = (λ e. absurd (ground (arith, e)), l)
decimal-Lacks b (suc fuel) n written h l =
    let ne : b'0' + n % 10 ≢ b = λ e. absurd (ground (arith, e)) in
    let more = decimal-Lacks b fuel (n / 10) ((b'0' + n % 10) ∷ written) h (ne, l) in
    elim (Bool-cases (ltb n 10)) [
      | inl few ↦
          let ne0 : b'0' + n ≢ b = λ e. absurd (ground (arith, e)) in rw (few, decimal) (ne0, l)
      | inr many ↦ rw (many, decimal) more
    ]

pub to_string-Lacks : (n : ℕ) → Lacks b':' (to_string (pos n))
unfolding to_string
to_string-Lacks n = decimal-Lacks b':' n n [] refl tt

pub to_string_no_star : (n : ℕ) → Lacks b'*' (to_string (pos n))
unfolding to_string
to_string_no_star n = decimal-Lacks b'*' n n [] refl tt

-- The text of a number can stand as a word in a start line.
pub to_string_word :
    (n : ℕ)
    → Lacks b' ' (to_string (pos n)) × Lacks b'\r' (to_string (pos n)) × (to_string (pos n) ≢ [])
unfolding to_string
to_string_word n = (
  decimal-Lacks b' ' n n [] refl tt,
  decimal-Lacks b'\r' n n [] refl tt,
  λ e. digit_ne_nil (decimal n n []) (decimal-StartsDigit n n []) e,
)
  where
    digit_ne_nil : (s : Bytes) → StartsDigit s → s ≢ []
    digit_ne_nil [] h e = h
    digit_ne_nil (c ∷ s) h e = cc
