-- ===== src/TimerWheel/Ticks.antt =====
-- uv/include/TimerWheel.hpp: what the wheel holds after some ticks.
use uv_cpp.Prelude.{
  ℕ, zero, suc, ◌+◌, ◌-◌, ◌%◌, ◌^◌, ◌≤◌, ◌<◌, ◌≡◌, refl, ap, ◌∙◌, true, false, ◌||◌, List, [],
  length, take, ◌++◌, set, get_or, ltb, leb, ◌==◌, if◌then◌else◌, none, some, arith, length-set,
  get_or-set_self, get_or-set_ne, ext, sym,
}
use uv_cpp.TimerWheel.{
  TimerWheel, create, start, resize, empty_sets, member, insert_set, insert, next_index,
  wheel_callback, ticks, set_timeout,
}

-- A wheel that has been started: as many slots as seconds.
pub record IsValid (w : TimerWheel) : Type 0 where
  pub some_time : 0 < w.timeout_sec
  pub fits : w.timeout_sec < 2 ^ 32
  pub slots : length w.wheel ≡ w.timeout_sec
  pub index_in : w.index < w.timeout_sec

-- How many ticks it takes until the index comes to slot `s`.
abbrev pub due : TimerWheel → ℕ → ℕ
due w s = if ltb w.index s then s - w.index else s + w.timeout_sec - w.index

abbrev pub slot : TimerWheel → ℕ → List ℕ
slot w s = get_or w.wheel s []

abbrev pub ticked : TimerWheel → TimerWheel
ticked w =
    let i = if w.index + 1 == w.timeout_sec then 0 else w.index + 1 in
    record w { index = i; wheel = set w.wheel i [] }

pub wheel_callback-ticked : (w : TimerWheel) → IsValid w → wheel_callback w ≡ some (ticked w)
unfolding wheel_callback next_index
wheel_callback-ticked w v =
    let e : (w.index + 1) % 2 ^ 32 ≡ w.index + 1 = omega (arith, v.fits, v.index_in) in
    rw e (
      let a : (w.timeout_sec == 0) ≡ false = ground (arith, v.some_time) in
      let b : ltb (if w.index + 1 == w.timeout_sec then 0 else w.index + 1) (length w.wheel)
          ≡ true =
        ground (arith, v.some_time, v.slots, v.index_in) in
      rw (a, b) refl)

pub next_index-ticked : (w : TimerWheel) → IsValid w → next_index w ≡ (ticked w).index
unfolding next_index
next_index-ticked w v =
    let e : (w.index + 1) % 2 ^ 32 ≡ w.index + 1 = omega (arith, v.fits, v.index_in) in rw e refl

pub ticked-IsValid : (w : TimerWheel) → IsValid w → IsValid (ticked w)
ticked-IsValid w v =
    let i = if w.index + 1 == w.timeout_sec then 0 else w.index + 1 in
    record {
      some_time = v.some_time;
      fits = v.fits;
      slots = length-set w.wheel i [] ∙ v.slots;
      index_in = ground (arith, v.some_time, v.index_in);
    }

pub slot-ticked :
    (w : TimerWheel) (s : ℕ)
    → IsValid w
    → s < w.timeout_sec
    → slot (ticked w) s ≡ (if due w s == 1 then [] else slot w s)
slot-ticked w s v h =
    let i = if w.index + 1 == w.timeout_sec then 0 else w.index + 1 in
    ground
      (arith, v.slots, v.index_in, get_or-set_self w.wheel i [] [], get_or-set_ne w.wheel i s [] [])

pub due-ticked :
    (w : TimerWheel) (s : ℕ)
    → IsValid w
    → s < w.timeout_sec
    → due (ticked w) s ≡ (if due w s == 1 then w.timeout_sec else due w s - 1)
due-ticked w s v h = ground (arith, v.index_in)

-- A started wheel takes any number of ticks up to its timeout without leaving the vector, and stays
-- well formed. The slots that fall due in that time are empty then; the others are as before.
pub ticks_lem :
    (n : ℕ) (w : TimerWheel)
    → IsValid w
    → n ≤ w.timeout_sec
    → (w' : TimerWheel) × (ticks n w ≡ some w')
      × IsValid w'
      × (w'.timeout_sec ≡ w.timeout_sec)
      × ((s : ℕ) → s < w.timeout_sec → slot w' s ≡ (if leb (due w s) n then [] else slot w s))
unfolding ticks
ticks_lem zero w v h = (w, refl, v, refl, λ s lt. ground (arith, v.index_in))
ticks_lem (suc n) w v h =
    let (w', e, v', t, slots) = ticks_lem n (ticked w) (ticked-IsValid w v) (omega arith) in
    (
      w',
      rw (wheel_callback-ticked w v, ticks) e,
      v',
      t,
      λ s lt. slots s lt ∙ ground (arith, slot-ticked w s v lt, due-ticked w s v lt, v.index_in),
    )

get_or-empty_sets : (n s : ℕ) → get_or (empty_sets n) s [] ≡ []
unfolding empty_sets
get_or-empty_sets zero s = refl
get_or-empty_sets (suc n) zero = refl
get_or-empty_sets (suc n) (suc s) = get_or-empty_sets n s

length-empty_sets : (n : ℕ) → length (empty_sets n) ≡ n
unfolding empty_sets
length-empty_sets zero = refl
length-empty_sets (suc n) = ap suc (length-empty_sets n)

-- On a started wheel, after as many ticks as the timeout has seconds, without an insert in
-- between, every slot is empty; the ticks stay inside the vector and the wheel stays well formed.
pub ticks-timeout :
    (w : TimerWheel)
    → IsValid w
    → (w' : TimerWheel) × (ticks w.timeout_sec w ≡ some w')
      × IsValid w'
      × (w'.wheel ≡ empty_sets w.timeout_sec)
ticks-timeout w v =
    let n = w.timeout_sec in
    let (w', e, v', t, slots) = ticks_lem n w v (omega arith) in
    let l : length w'.wheel ≡ n = v'.slots ∙ t in
    (
      w',
      e,
      v',
      ext w'.wheel (empty_sets n) [] (l ∙ sym (length-empty_sets n)) λ s lt.
          let lt' : s < n = omega (arith, l) in
          slots s lt' ∙ ground (arith, v.index_in, get_or-empty_sets n s),
    )

member-insert_set : (v : ℕ) (xs : List ℕ) → member v (insert_set v xs) ≡ true
unfolding member insert_set
member-insert_set v xs = ground arith

pub member-insert_set_old :
    (v p : ℕ) (xs : List ℕ) → member v xs ≡ true → member v (insert_set p xs) ≡ true
unfolding member insert_set
member-insert_set_old v p xs h = ground (arith, h)

pub insert-none : (w : TimerWheel) → insert w none ≡ some w
unfolding insert
insert-none w = refl

abbrev pub inserted : TimerWheel → ℕ → TimerWheel
inserted w p = record w { wheel = set w.wheel w.index (insert_set p (slot w w.index)) }

pub insert-inserted : (w : TimerWheel) (p : ℕ) → IsValid w → insert w (some p) ≡ some (inserted w p)
unfolding insert
insert-inserted w p v =
    let a : (w.timeout_sec == 0) ≡ false = ground (arith, v.some_time) in
    let b : ltb w.index (length w.wheel) ≡ true = ground (arith, v.slots, v.index_in) in
    rw (a, b) refl

pub inserted-IsValid : (w : TimerWheel) (p : ℕ) → IsValid w → IsValid (inserted w p)
inserted-IsValid w p v = record {
  some_time = v.some_time;
  fits = v.fits;
  slots = length-set w.wheel w.index _ ∙ v.slots;
  index_in = v.index_in;
}

pub member-inserted :
    (w : TimerWheel) (p : ℕ) → IsValid w → member p (slot (inserted w p) w.index) ≡ true
member-inserted w p v =
    rw
      (get_or-set_self w.wheel w.index (insert_set p (slot w w.index)) []
        (omega (arith, v.slots, v.index_in)))
      (member-insert_set p (slot w w.index))

-- A pointer that is inserted in a started wheel is held through every number of ticks below the
-- timeout: `insert` and the ticks stay inside the vector, and the slot it was put in has it still.
pub ticks-insert :
    (w : TimerWheel) (p n : ℕ)
    → IsValid w
    → n < w.timeout_sec
    → (w1 w2 : TimerWheel) × (insert w (some p) ≡ some w1)
      × (ticks n w1 ≡ some w2)
      × (member p (slot w2 w.index) ≡ true)
ticks-insert w p n v h =
    let w1 = inserted w p in
    let (w2, e, _, _, slots) = ticks_lem n w1 (inserted-IsValid w p v) (omega arith) in
    let kept : slot w2 w.index ≡ slot w1 w.index = slots w.index v.index_in ∙ ground arith in
    (w1, w2, insert-inserted w p v, e, rw kept (member-inserted w p v))

-- Starting a new wheel with a timeout other than 0 and below 2 ^ 32 makes it well formed: it has
-- as many slots as seconds, and the index is one of them.
pub start-IsValid :
    (timeout : ℕ) → 0 < timeout → timeout < 2 ^ 32 → IsValid (start (create timeout))
unfolding start create resize
start-IsValid timeout h k =
    let e : (timeout == 0) ≡ false = ground arith in
    rw e (record { some_time = h; fits = k; slots = filled timeout; index_in = h })
  where
    filled : (n : ℕ) → length (take n [] ++ empty_sets (n - 0)) ≡ n
    filled zero = length-empty_sets 0
    filled (suc n) = length-empty_sets (suc n - 0) ∙ omega arith

abbrev moved : TimerWheel → TimerWheel
moved w = record w { index = w.index + 1; wheel = set w.wheel (w.index + 1) [] }

-- The index is not reset when the timeout is behind it, or behind the last slot.
wheel_callback_past :
    (w : TimerWheel)
    → w.index < length w.wheel
    → length w.wheel < 2 ^ 32
    → leb w.timeout_sec w.index || ltb (length w.wheel) w.timeout_sec ≡ true
    → 0 < w.timeout_sec
    → wheel_callback w ≡ (if ltb (w.index + 1) (length w.wheel) then some (moved w) else none)
unfolding wheel_callback next_index
wheel_callback_past w e small out pos =
    let t0 : (w.timeout_sec == 0) ≡ false = ground arith in
    let wrap : (w.index + 1) % 2 ^ 32 ≡ w.index + 1 = omega arith in
    let far : (w.index + 1 == w.timeout_sec) ≡ false = ground arith in rw (t0, wrap) (rw far refl)

ticks_past :
    (n : ℕ) (w : TimerWheel)
    → w.index + suc n ≡ length w.wheel
    → length w.wheel < 2 ^ 32
    → leb w.timeout_sec w.index || ltb (length w.wheel) w.timeout_sec ≡ true
    → 0 < w.timeout_sec
    → ticks (suc n) w ≡ none
unfolding ticks
ticks_past zero w e small out pos =
    let stop : ltb (w.index + 1) (length w.wheel) ≡ false = ground arith in
    let c = wheel_callback_past w (omega arith) small out pos in
    rw (c, ticks) (rw (stop, ticks) refl)
ticks_past (suc n) w e small out pos =
    let go : ltb (w.index + 1) (length w.wheel) ≡ true = ground arith in
    let l = length-set w.wheel (w.index + 1) [] in
    let c = wheel_callback_past w (omega arith) small out pos in
    let past =
      ticks_past n (moved w) (omega (arith, l)) (omega (arith, l)) (ground (arith, l)) pos in
    rw (c, ticks) (rw (go, ticks) past)

-- If the timeout of a started wheel is set to a value other than 0 that the index has reached
-- already, or above the number of slots, then the tick that brings the index behind the last slot
-- writes outside the vector.
pub ticks-set_timeout :
    (w : TimerWheel) (t : ℕ)
    → IsValid w
    → 0 < t
    → leb t w.index || ltb w.timeout_sec t ≡ true
    → ticks (w.timeout_sec - w.index) (set_timeout w t) ≡ none
unfolding set_timeout
ticks-set_timeout w t v h out =
    let n = w.timeout_sec - w.index - 1 in
    let e : w.timeout_sec - w.index ≡ suc n = omega (arith, v.index_in) in
    rw e (
      ticks_past n (record w { timeout_sec = t }) (omega (arith, v.slots, e))
        (omega (arith, v.slots, v.fits)) (rw v.slots out) h)

pub set_timeout-create : (n t : ℕ) → set_timeout (create n) t ≡ create t
unfolding set_timeout create
set_timeout-create n t = refl
