-- ===== src/LogWriter/Levels.antt =====
-- uv/LogWriter.cpp: the levels and their names, and text in hexadecimal.
use uv_cpp.Prelude.{
  ℕ, zero, suc, ◌+◌, ◌↔◌, ◌≤◌, ◌<◌, ◌≡◌, refl, true, false, Bytes, codes, [], ◌∷◌, ◌++◌, length,
  leb, if◌then◌else◌, none, some, arith,
}
use uv_cpp.Http.Number.{ℤ, pos, negsuc}
use uv_cpp.LogWriter.{
  Level, debug, info, warn, error, fatal, level_code, LogWriter, called, printed, level_str, nth,
  get_level_name, reaches, write, log_fatal, hex_byte, to_hex,
}

-- `fatal` never writes anything, whatever the writer's level and callback are.
pub log_fatal-nil : (w : LogWriter) (bytes : Bytes) → log_fatal w bytes ≡ some []
unfolding log_fatal write level_code
log_fatal-nil w bytes = refl

-- With a callback registered, a level up to Error is written just when it reaches the level of the
-- writer: the callback is called once with the level and the text.
pub write-callback :
    (w : LogWriter) (level : Level) (bytes : Bytes)
    → w.callback ≡ true
    → level_code level < 4
    → write w level bytes
      ≡ some (if reaches (level_code level) w.level then called level bytes ∷ [] else [])
unfolding write
write-callback w level bytes cb h =
    let a : leb (level_code level) 3 ≡ true = ground arith in
    let b : leb 0 (level_code level) ≡ true = ground arith in ground (arith, cb)

-- Without a callback, a level up to Error has a name, and it is printed with the name in front of
-- the text just when it reaches the level of the writer.
pub write-print :
    (w : LogWriter) (level : Level) (bytes : Bytes)
    → w.callback ≡ false
    → level_code level < 4
    → (name : Bytes) × (get_level_name (pos (level_code level)) ≡ some name)
      × (write w level bytes
          ≡ some (
              if reaches (level_code level) w.level
              then printed (name ++ (codes " :" ++ (bytes ++ codes "\n"))) ∷ []
              else []))
unfolding write get_level_name level_code nth level_str
write-print w debug bytes cb h = (codes "Debug", refl, ground (arith, cb))
write-print w info bytes cb h = (codes "Info", refl, ground (arith, cb))
write-print w warn bytes cb h = (codes "Warn", refl, ground (arith, cb))
write-print w error bytes cb h = (codes "Error", refl, ground (arith, cb))
write-print w fatal bytes cb h = absurd (omega arith)

pos_inj : (a b : ℕ) → pos a ≡ pos b → a ≡ b
pos_inj a b e = cc

pos_negsuc : (a b : ℕ) → negsuc a ≡ pos b → ⊥
pos_negsuc a b e = cc

-- `getLevelName` reads outside the vector of names for one number only, which is the number of
-- names.
pub get_level_name-none : (n : ℤ) → (get_level_name n ≡ none) ↔ (n ≡ pos (length level_str))
unfolding get_level_name nth level_str
get_level_name-none (negsuc n) = (λ e. cc, λ e. absurd (pos_negsuc n 5 e))
get_level_name-none (pos zero) = (λ e. cc, λ e. absurd (omega (arith, pos_inj 0 5 e)))
get_level_name-none (pos (suc zero)) = (λ e. cc, λ e. absurd (omega (arith, pos_inj 1 5 e)))
get_level_name-none (pos (suc (suc zero))) = (λ e. cc, λ e. absurd (omega (arith, pos_inj 2 5 e)))
get_level_name-none (pos (suc (suc (suc zero)))) =
    (λ e. cc, λ e. absurd (omega (arith, pos_inj 3 5 e)))
get_level_name-none (pos (suc (suc (suc (suc zero))))) =
    (λ e. cc, λ e. absurd (omega (arith, pos_inj 4 5 e)))
get_level_name-none (pos (suc (suc (suc (suc (suc zero)))))) = (λ e. refl, λ e. refl)
get_level_name-none (pos (suc (suc (suc (suc (suc (suc n))))))) =
    let big : leb (suc (suc (suc (suc (suc (suc n)))))) 5 ≡ false = ground arith in
    rw big (λ e. cc, λ e. absurd (omega (arith, pos_inj (suc (suc (suc (suc (suc (suc n)))))) 5 e)))

-- What is printed for a byte fits into the eight bytes that `ToHex` has for it, with the NUL
-- behind.
pub hex_byte-fits : (x : ℕ) → length (hex_byte x) + 1 ≤ 8
unfolding hex_byte
hex_byte-fits x = ground arith

-- Text in hexadecimal can be written in two calls or in one.
pub to_hex-append : (message a b : Bytes) → to_hex message (a ++ b) ≡ to_hex (to_hex message a) b
unfolding to_hex
to_hex-append message [] b = refl
to_hex-append message (x ∷ a) b = to_hex-append (message ++ hex_byte x) a b
