-- ===== src/LogWriter.antt =====
-- uv/LogWriter.cpp: the log. Whoever writes gives a level, and the writer drops what is below its own
-- level or above Error. `none` is an access outside the vector of level names.
pub mod Levels
use uv_cpp.Prelude.{
  ℕ, zero, suc, ◌+◌, ◌/◌, ◌%◌, Bool, true, false, ◌&&◌, Bytes, codes, List, [], ◌∷◌, ◌++◌, length,
  leb, ltb, if◌then◌else◌, Option, none, some,
}
use uv_cpp.Http.Number.{ℤ, pos, negsuc}

pub data Level : Type 0 where
  debug info warn error fatal : Level

pub level_code : Level → ℕ
level_code debug = 0
level_code info = 1
level_code warn = 2
level_code error = 3
level_code fatal = 4

-- `callback` says whether one is registered; `level` is an `int`.
pub record LogWriter : Type 0 where
  pub callback : Bool
  pub level : ℤ

-- A call of the callback, or a line on standard output.
pub data Output : Type 0 where
  called : Level → Bytes → Output
  printed : Bytes → Output

pub new_log_writer : LogWriter
new_log_writer = record { callback = false; level = pos 0 }

pub register_interface : LogWriter → Bool → LogWriter
register_interface w callback = record w { callback = callback }

pub set_level : LogWriter → ℤ → LogWriter
set_level w level = record w { level = level }

pub get_level : LogWriter → ℤ
get_level w = w.level

-- `levelStr_` after the constructor
pub level_str : List Bytes
level_str = codes "Debug" ∷ codes "Info" ∷ codes "Warn" ∷ codes "Error" ∷ codes "Fatal" ∷ []

pub null_level : Bytes
null_level = codes "NullLevel"

-- `levelStr_[i]`
pub nth : List Bytes → ℕ → Option Bytes
nth [] i = none
nth (x ∷ xs) zero = some x
nth (x ∷ xs) (suc i) = nth xs i

pub get_level_name : ℤ → Option Bytes
unfolding nth level_str null_level
get_level_name (negsuc n) = some null_level
get_level_name (pos n) = if leb n (length level_str) then nth level_str n else some null_level

-- Whether a level, which is not negative, is at least the level of the writer.
pub reaches : ℕ → ℤ → Bool
reaches code (pos n) = leb n code
reaches code (negsuc n) = true

-- The two overloads do the same. What is written, with the name of the level in front on standard
-- output.
pub write : LogWriter → Level → Bytes → Option (List Output)
unfolding level_code reaches get_level_name
write w level bytes =
    if leb (level_code level) (level_code error)
      && (reaches (level_code level) w.level && leb (level_code debug) (level_code level))
    then (if w.callback
        then some (called level bytes ∷ [])
        else elim (get_level_name (pos (level_code level))) [
          | none ↦ none
          | some name ↦ some (printed (name ++ (codes " :" ++ (bytes ++ codes "\n"))) ∷ [])
        ])
    else some []

pub log_fatal : LogWriter → Bytes → Option (List Output)
log_fatal w bytes = write w fatal bytes

log_warn : LogWriter → Bytes → Option (List Output)
log_warn w bytes = write w warn bytes

log_error_line : LogWriter → Bytes → Option (List Output)
log_error_line w bytes = write w error bytes

log_info : LogWriter → Bytes → Option (List Output)
log_info w bytes = write w info bytes

log_debug : LogWriter → Bytes → Option (List Output)
log_debug w bytes = write w debug bytes

-- The digit of a value below 16, as `%x` prints it.
pub hex_digit : ℕ → ℕ
hex_digit n = if ltb n 10 then b'0' + n else 87 + n

-- `sprintf(buf, " 0x%x ", byte)`
pub hex_byte : ℕ → Bytes
unfolding hex_digit
hex_byte x =
    codes " 0x"
    ++ ((if ltb x 16 then hex_digit x ∷ [] else hex_digit (x / 16) ∷ hex_digit (x % 16) ∷ [])
        ++ codes " ")

-- Appends to the message.
pub to_hex : Bytes → Bytes → Bytes
to_hex message [] = message
to_hex message (x ∷ bytes) = to_hex (message ++ hex_byte x) bytes
