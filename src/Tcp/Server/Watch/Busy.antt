-- ===== src/Tcp/Server/Watch/Busy.antt =====
-- uv/TcpServer.cpp with uv/include/TimerWheel.hpp: how long a message keeps a connection.
use uv_cpp.Prelude.{
  ◌<◌, ◌^◌, ℕ, zero, suc, ◌≡◌, ◌∙◌, refl, sym, ap, true, false, Bytes, List, [], ◌∷◌, ◌++◌, get_or,
  ◌==◌, some, arith, Option-cases, inl, inr, ◌<◌,
}
use uv_cpp.Uv.{Handles}
use uv_cpp.Http.Number.{pos}
use uv_cpp.TimerWheel.{member}
use uv_cpp.TimerWheel.Ticks
use uv_cpp.TimerWheel.Ticks.{ticked, slot, due, inserted}
use uv_cpp.Tcp.Connection
use uv_cpp.Tcp.Connection.{server, TcpConnection, received, get_wrapper}
use uv_cpp.Tcp.Connections.{lookup, update, lookup-update_self}
use uv_cpp.Tcp.Server.{TcpServer, Action, held, reacts}
use uv_cpp.Tcp.Server.Run.{happened, connection_step, step, ticks}
use uv_cpp.Tcp.Server.Watch.{IsValid, tracked, watched}
use uv_cpp.Tcp.Server.Watch.Idle.{held_slot, alive, tick-IsValid}
use uv_cpp.Tcp.Server.Watch.Steps.{update-IsValid}
use uv_cpp.Tcp.Server.Watch.Touch.{touch, wrapper_of, message_touch}

module _ (uv : Handles) where
  alive_slot :
      (slots : List (List ℕ)) (k i : ℕ) (c : TcpConnection uv.Handle)
      → c.wrapper ≡ some i
      → member i (get_or slots k []) ≡ true
      → alive uv slots c ≡ true
  unfolding alive
  alive_slot slots k i c e m = rw e (held_slot i k slots m)

  -- A wrapper in a slot that is not due keeps its connection.
  ticks-keeps :
      (n : ℕ) (s : TcpServer uv.Handle) (name : Bytes) (c : TcpConnection uv.Handle) (i k : ℕ)
      → IsValid uv s
      → lookup name s.connnections ≡ some c
      → c.wrapper ≡ some i
      → k < s.timer_wheel.timeout_sec
      → member i (slot s.timer_wheel k) ≡ true
      → n < due s.timer_wheel k
      → (xs : List Action) × (s' : TcpServer uv.Handle) × (ticks uv n s ≡ some (xs, s'))
        × (lookup name s'.connnections ≡ some c)
  unfolding ticks
  ticks-keeps zero s name c i k v l e in_wheel m h = ([], s, refl, l)
  ticks-keeps (suc n) s name c i k v l e in_wheel m h =
      let w = s.timer_wheel in
      let (xs, s1, t, v1, same, _, keeps, _) = tick-IsValid uv s v in
      let later : member i (slot (ticked w) k) ≡ true =
        let keep : slot (ticked w) k ≡ slot w k =
          Ticks.slot-ticked w k v.wheel in_wheel ∙ ground (arith, h) in
        rw keep m in
      let d : n < due (ticked w) k = ground (arith, h, Ticks.due-ticked w k v.wheel in_wheel) in
      let l1 = keeps name c l (alive_slot (ticked w).wheel k i c e later) in
      let (ys, s2, t', l2) =
        ticks-keeps n s1 name c i k v1 l1 e (rw same in_wheel) (rw same later) (rw same d) in
      (xs ++ ys, s2, rw (t, ticks) (rw t' (refl {a = some (xs ++ ys, s2)})), l2)

  open_wrapper :
      (names : List Bytes) (slots : List (List ℕ)) (name : Bytes) (c : TcpConnection uv.Handle)
      → tracked uv names slots name c ≡ true
      → uv.is_closing c.handle ≡ false
      → (i : ℕ) × (c.wrapper ≡ some i) × (get_wrapper (λ j. held j slots) c ≡ some i)
  unfolding tracked watched get_wrapper
  open_wrapper names slots name c t o = elim (Option-cases c.wrapper) [
    | inl missing ↦ absurd (ground (arith, t, o, missing))
    | inr found ↦ (found.0, found.1, ground (arith, t, o, found.1))
  ]

  on_message_told :
      (c : TcpConnection uv.Handle) (buf : Bytes)
      → c.on_message_callback ≡ some server
      → Connection.on_message c buf ≡ Connection.message server c.name buf ∷ []
  unfolding Connection.on_message Connection.calls
  on_message_told c buf cb = rw cb refl

  step-received :
      (m : ℕ) (buf : Bytes) (s : TcpServer uv.Handle) (name : Bytes) (c : TcpConnection uv.Handle)
      → lookup name s.connnections ≡ some c
      → step uv (happened (received (pos (suc m)) buf) name) s
        ≡ reacts uv name
            (Connection.on_message c buf)
            (record s { connnections = update name c s.connnections })
  unfolding step connection_step Connection.step Connection.on_message_receive
  step-received m buf s name c l =
      let some_bytes : (suc m == 0) ≡ false = ground arith in
      rw (l, connection_step) (rw some_bytes refl)

  -- After a message of a connection that is open and tells the server of its messages, the
  -- connection stays as it is for every number of seconds below the timeout, which is below 2 ^
  -- 31, if nothing else happens; that the message is handled, and that the seconds pass, without a
  -- fault is part of it.
  pub ticks-received :
      (m n : ℕ) (buf : Bytes) (s : TcpServer uv.Handle) (name : Bytes) (c : TcpConnection uv.Handle)
      → IsValid uv s
      → lookup name s.connnections ≡ some c
      → uv.is_closing c.handle ≡ false
      → c.on_message_callback ≡ some server
      → n < s.timer_wheel.timeout_sec
      → s.timer_wheel.timeout_sec < 2 ^ 31
      → (xs ys : List Action) × (s1 s2 : TcpServer uv.Handle) × (step uv
            (happened (received (pos (suc m)) buf) name)
            s
          ≡ some (xs, s1))
        × (ticks uv n s1 ≡ some (ys, s2))
        × (lookup name s2.connnections ≡ some c)
  ticks-received m n buf s name c v l o cb h short =
      let s0 = record s { connnections = update name c s.connnections } in
      let l0 = lookup-update_self name c c s.connnections l in
      let v0 = update-IsValid uv s name c c v l (v.tracks name c l) in
      let w = s.timer_wheel in
      let (i, e, g) = open_wrapper s.wrappers w.wheel name c (v.tracks name c l) o in
      let (xs, r, v1) = message_touch uv s0 name c.name c buf v0 l0 short in
      let s1 = record s0 { timer_wheel = inserted w i } in
      let same : touch uv s0 (wrapper_of uv s0 c) ≡ s1 = rw g refl in
      let v1' : IsValid uv s1 = rw (sym same) v1 in
      let (ys, s2, t, l2) =
        ticks-keeps n s1 name c i w.index v1' l0 e v.wheel.index_in
          (Ticks.member-inserted w i v.wheel) (ground (arith, v.wheel.index_in)) in
      let told = ap (λ z. reacts uv name z s0) (on_message_told c buf cb) in
      (
        xs,
        ys,
        s1,
        s2,
        step-received m buf s name c l ∙ (told ∙ (r ∙ ap (λ z. some (xs, z)) same)),
        t,
        l2,
      )
