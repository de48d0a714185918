-- ===== src/Tcp/Server/Watch/Touch.antt =====
-- uv/TcpServer.cpp with uv/include/TimerWheel.hpp: what a message does to the timer wheel.
use uv_cpp.Prelude.{
  ◌<◌, ◌^◌, ℕ, zero, suc, ◌≡◌, refl, true, Bytes, List, [], ◌∷◌, ◌++◌, get_or, set, Option, none,
  some, arith, Option-cases, inl, inr,
}
use uv_cpp.Uv.{Handles}
use uv_cpp.TimerWheel
use uv_cpp.TimerWheel.{TimerWheel, member, insert_set}
use uv_cpp.TimerWheel.Ticks
use uv_cpp.TimerWheel.Ticks.{inserted, slot}
use uv_cpp.Tcp.Connection
use uv_cpp.Tcp.Connection.{
  Function, server, client, user, TcpConnection, Event, get_wrapper, received, shut_down,
  write_called, write_done,
}
use uv_cpp.Tcp.Connections.{lookup}
use uv_cpp.Tcp.Server.{
  TcpServer, Action, held, with_wheel, told, message_arrived, reacts, on_message,
}
use uv_cpp.Tcp.Server.Watch.{IsValid, tracked, watched}

pub held-insert_set :
    (i j k : ℕ) (slots : List (List ℕ))
    → held i slots ≡ true
    → held i (set slots k (insert_set j (get_or slots k []))) ≡ true
unfolding held member
held-insert_set i j k [] h = h
held-insert_set i j zero (xs ∷ slots) h = ground (arith, h, Ticks.member-insert_set_old i j xs)
held-insert_set i j (suc k) (xs ∷ slots) h = ground (arith, held-insert_set i j k slots)

module _ (uv : Handles) where
  pub tracked_more :
      (names : List Bytes) (slots slots' : List (List ℕ)) (name : Bytes)
      (c : TcpConnection uv.Handle)
      → ((i : ℕ) → held i slots ≡ true → held i slots' ≡ true)
      → tracked uv names slots name c ≡ true
      → tracked uv names slots' name c ≡ true
  unfolding tracked watched
  tracked_more names slots slots' name c more t = elim (Option-cases c.wrapper) [
    | inl missing ↦ ground (arith, t, missing)
    | inr found ↦ ground (arith, t, found.1, more found.0)
  ]

  pub inserted-IsValid :
      (s : TcpServer uv.Handle) (p : ℕ)
      → IsValid uv s
      → IsValid uv (record s { timer_wheel = inserted s.timer_wheel p })
  inserted-IsValid s p v =
      let w = s.timer_wheel in
      record {
        wheel = Ticks.inserted-IsValid w p v.wheel;
        tracks = λ name c l.
            tracked_more s.wrappers w.wheel (inserted w p).wheel name c
              (λ i h. held-insert_set i p w.index w.wheel h) (v.tracks name c l);
      }

  -- Every message puts the wrapper of the connection into the newest slot, if there is one still.
  abbrev pub touch : TcpServer uv.Handle → Option ℕ → TcpServer uv.Handle
  touch s none = s
  touch s (some p) = record s { timer_wheel = inserted s.timer_wheel p }

  touch-IsValid : (s : TcpServer uv.Handle) (o : Option ℕ) → IsValid uv s → IsValid uv (touch s o)
  touch-IsValid s none v = v
  touch-IsValid s (some p) v = inserted-IsValid s p v

  insert-touch :
      (s : TcpServer uv.Handle) (o : Option ℕ) (xs : List Action)
      → IsValid uv s
      → with_wheel s xs (TimerWheel.insert s.timer_wheel o) ≡ some (xs, touch s o)
  insert-touch s none xs v = rw (Ticks.insert-none s.timer_wheel) refl
  insert-touch s (some p) xs v = rw (Ticks.insert-inserted s.timer_wheel p v.wheel) refl

  abbrev pub wrapper_of : TcpServer uv.Handle → TcpConnection uv.Handle → Option ℕ
  wrapper_of s c = get_wrapper (λ i. held i s.timer_wheel.wheel) c

  -- A timeout that an `int` holds is one that the server sees.
  pub timed :
      (w : TimerWheel.TimerWheel)
      → Ticks.IsValid w
      → w.timeout_sec < 2 ^ 31
      → TimerWheel.is_positive (TimerWheel.get_timeout w) ≡ true
  unfolding TimerWheel.is_positive TimerWheel.get_timeout
  timed w v short = ground (arith, v.some_time, short)

  pub on_message-touch :
      (s : TcpServer uv.Handle) (name : Bytes) (c : TcpConnection uv.Handle) (buf : Bytes)
      → IsValid uv s
      → s.timer_wheel.timeout_sec < 2 ^ 31
      → (xs : List Action) × (on_message s name c buf ≡ some (xs, touch s (wrapper_of s c)))
  unfolding on_message
  on_message-touch s name c buf v short =
      let on = timed s.timer_wheel v.wheel short in
      let xs = told s.on_message_callback λ k. message_arrived k name buf in
      (xs, rw (on, on_message) (insert-touch s (wrapper_of s c) xs v))

  -- A message is told to the user, and the wrapper is put into the newest slot.
  pub message_touch :
      (s : TcpServer uv.Handle) (name n : Bytes) (c : TcpConnection uv.Handle) (buf : Bytes)
      → IsValid uv s
      → lookup name s.connnections ≡ some c
      → s.timer_wheel.timeout_sec < 2 ^ 31
      → (xs : List Action) × (reacts uv name (Connection.message server n buf ∷ []) s
          ≡ some (xs, touch s (wrapper_of s c)))
        × IsValid uv (touch s (wrapper_of s c))
  unfolding reacts
  message_touch s name n c buf v e short =
      let (xs, m) = on_message-touch s name c buf v short in
      (xs ++ [], rw (e, reacts) (rw m refl), touch-IsValid s (wrapper_of s c) v)
