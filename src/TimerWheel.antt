-- ===== src/TimerWheel.antt =====
-- uv/include/TimerWheel.hpp: a wheel of sets of shared pointers that is turned by a timer. A
-- pointer is a number, a `std::set` a list without repeats, and `none` is an access outside
-- the vector. The timer that calls `wheelCallback` every second belongs to the event loop.
pub mod Ticks
mod Tests
use uv_cpp.Prelude.{
  ℕ, zero, suc, ◌+◌, ◌%◌, ◌^◌, Bool, true, false, ◌||◌, List, [], ◌∷◌, length, set, get_or, ltb,
  ◌==◌, if◌then◌else◌, Option, none, some, take, ◌++◌, ◌-◌,
}
use uv_cpp.Http.Number.{ℤ, pos, negsuc}

pub record TimerWheel : Type 0 where
  pub index : ℕ
  pub timeout_sec : ℕ
  pub timer_started : Bool
  pub wheel : List (List ℕ)

unfoldable pub create : ℕ → TimerWheel
create timeout = record { index = 0; timeout_sec = timeout; timer_started = false; wheel = [] }

pub set_timeout : TimerWheel → ℕ → TimerWheel
set_timeout w seconds = record w { timeout_sec = seconds }

-- The conversion to `int` makes a negative number of 2 ^ 31 and above.
unfoldable pub get_timeout : TimerWheel → ℤ
get_timeout w =
    if ltb w.timeout_sec (2 ^ 31) then pos w.timeout_sec else negsuc (2 ^ 32 - 1 - w.timeout_sec)

-- `> 0`
unfoldable pub is_positive : ℤ → Bool
is_positive (pos n) = ltb 0 n
is_positive (negsuc n) = false

unfoldable pub empty_sets : ℕ → List (List ℕ)
empty_sets zero = []
empty_sets (suc n) = [] ∷ empty_sets n

-- `wheel_.resize(n)`
pub resize : ℕ → List (List ℕ) → List (List ℕ)
unfolding empty_sets
resize n xs = take n xs ++ empty_sets (n - length xs)

pub start : TimerWheel → TimerWheel
unfolding resize
start w =
    if w.timeout_sec == 0
    then w
    else record w { wheel = resize w.timeout_sec w.wheel; timer_started = true }

unfoldable pub member : ℕ → List ℕ → Bool
member v [] = false
member v (x ∷ xs) = (x == v) || member v xs

-- `std::set::insert`
pub insert_set : ℕ → List ℕ → List ℕ
insert_set v xs = if member v xs then xs else v ∷ xs

-- A null pointer is `none`.
pub insert : TimerWheel → Option ℕ → Option TimerWheel
unfolding insert_set
insert w none = some w
insert w (some v) =
    if w.timeout_sec == 0
    then some w
    else if ltb w.index (length w.wheel)
    then some (record w { wheel = set w.wheel w.index (insert_set v (get_or w.wheel w.index [])) })
    else none

pub next_index : TimerWheel → ℕ
next_index w = let i = (w.index + 1) % 2 ^ 32 in if i == w.timeout_sec then 0 else i

pub wheel_callback : TimerWheel → Option TimerWheel
unfolding next_index
wheel_callback w =
    if w.timeout_sec == 0
    then some w
    else if ltb (next_index w) (length w.wheel)
    then some (record w { index = next_index w; wheel = set w.wheel (next_index w) [] })
    else none

-- The timer fires `n` times.
unfoldable pub ticks : ℕ → TimerWheel → Option TimerWheel
ticks zero w = some w
ticks (suc n) w = elim (wheel_callback w) [ none ↦ none | some w' ↦ ticks n w' ]
