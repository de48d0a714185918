-- ===== src/Tcp/Server/Watch/Accept.antt =====
-- uv/TcpServer.cpp: onAccept keeps a server's connections well formed.
use uv_cpp.Prelude.{
  ◌<◌, ◌^◌, ℕ, ◌≡◌, refl, sym, true, false, Bytes, List, [], ◌∷◌, ◌++◌, length, map, ltb, none,
  some, arith, Bool-cases, Option-cases, inl, inr, length-append, get_or-append_left,
  get_or-append_right,
}
use uv_cpp.Uv.{Handles}
use uv_cpp.Http.Text.{equal}
use uv_cpp.Http.Text.Find.{equal_iff}
use uv_cpp.Buffer.Config.{BufferMode}
use uv_cpp.TimerWheel.Ticks
use uv_cpp.TimerWheel.Ticks.{inserted}
use uv_cpp.Tcp.Connection.{
  server, TcpConnection, new_connection, set_wrapper, set_connect_close_callback,
  set_message_callback,
}
use uv_cpp.Tcp.Connections.{lookup, emplace, lookup-emplace}
use uv_cpp.Tcp.Server.{TcpServer, held, on_accept, on_accept_at, by_connection, told, new_connect}
use uv_cpp.Tcp.Server.Watch.{IsValid, tracked, watched, calls_server}
use uv_cpp.Tcp.Server.Watch.Idle.{held_slot}
use uv_cpp.Tcp.Server.Watch.Steps.{Survives}
use uv_cpp.Tcp.Server.Watch.Touch.{timed, held-insert_set, tracked_more}

module _ (uv : Handles) where
  abbrev fresh : BufferMode → Bytes → Bytes → uv.Handle → ℕ → TcpConnection uv.Handle
  fresh mode storage key h i =
      set_wrapper
        (set_connect_close_callback
          (set_message_callback (new_connection mode storage key h true).1 (some server))
          (some server))
        i

  fresh-tracked :
      (mode : BufferMode) (storage key : Bytes) (h : uv.Handle) (names : List Bytes)
      (slots : List (List ℕ))
      → uv.is_closing h ≡ false
      → held (length names) slots ≡ true
      → tracked uv (names ++ key ∷ []) slots key (fresh mode storage key h (length names)) ≡ true
  unfolding tracked watched calls_server new_connection set_wrapper set_connect_close_callback
      set_message_callback
  fresh-tracked mode storage key h names slots o a = ground (
    arith,
    o,
    a,
    (equal_iff key key).1 refl,
    length-append names (key ∷ []),
    get_or-append_right names (key ∷ []) (length names) 0 [] (omega arith),
  )

  tracked-append :
      (names : List Bytes) (key : Bytes) (slots : List (List ℕ)) (name : Bytes)
      (c : TcpConnection uv.Handle)
      → tracked uv names slots name c ≡ true
      → tracked uv (names ++ key ∷ []) slots name c ≡ true
  unfolding tracked watched
  tracked-append names key slots name c t = elim (Option-cases c.wrapper) [
    | inl missing ↦ ground (arith, t, missing)
    | inr found ↦
        let i = found.0 in
        elim (Bool-cases (ltb i (length names))) [
          | inr far ↦ ground (arith, t, found.1, far)
          | inl known ↦ ground (
            arith,
            t,
            found.1,
            known,
            length-append names (key ∷ []),
            get_or-append_left names (key ∷ []) i [] (ground arith),
          )
        ]
  ]

  pub on_accept-IsValid :
      (mode : BufferMode) (storage key : Bytes) (h : uv.Handle) (s : TcpServer uv.Handle)
      → IsValid uv s
      → lookup key s.connnections ≡ none
      → uv.is_closing h ≡ false
      → s.timer_wheel.timeout_sec < 2 ^ 31
      → Survives uv s (on_accept mode storage s key h)
  unfolding on_accept on_accept_at
  on_accept-IsValid mode storage key h s v new o short =
      let w = s.timer_wheel in
      let i = length s.wrappers in
      let d = fresh mode storage key h i in
      let on = timed uv w v.wheel short in
      let s1 = record s {
        connnections = emplace key d s.connnections;
        wrappers = s.wrappers ++ key ∷ [];
        timer_wheel = inserted w i;
      } in
      (
        map (by_connection key) (new_connection mode storage key h true).0
            ++ told s.on_new_connect_callback (λ k. new_connect k key),
        s1,
        rw (new, on_accept) (rw (on, on_accept_at) (rw (Ticks.insert-inserted w i v.wheel) refl)),
        record {
          wheel = Ticks.inserted-IsValid w i v.wheel;
          tracks = λ name c l. elim (Bool-cases (equal key name)) [
            | inl same ↦
                let e : c ≡ d =
                  ground (arith, l, same, lookup-emplace key name d s.connnections new) in
                rw (e, sym ((equal_iff key name).0 same))
                  (fresh-tracked mode storage key h s.wrappers (inserted w i).wheel o
                    (held_slot i w.index (inserted w i).wheel (Ticks.member-inserted w i v.wheel)))
            | inr other ↦ tracked-append s.wrappers key (inserted w i).wheel name c (
                tracked_more uv s.wrappers w.wheel (inserted w i).wheel name c
                  (λ j a. held-insert_set j i w.index w.wheel a)
                  (v.tracks name c
                    (ground (arith, l, other, lookup-emplace key name d s.connnections new))))
          ];
        },
      )
