-- ===== src/Tcp/Server/Watch/Idle.antt =====
-- uv/TcpServer.cpp with uv/include/TimerWheel.hpp: when idle connections are closed.
use uv_cpp.Prelude.{
  ℕ, zero, suc, ◌≡◌, ◌∙◌, refl, sym, ap, Bool, true, false, ◌&&◌, Bytes, List, [], ◌∷◌, ◌++◌,
  get_or, set, ◌==◌, if◌then◌else◌, none, some, arith, Bool-cases, Option-cases, inl, inr, ◌⊎◌,
}
use uv_cpp.Uv.{Handles}
use uv_cpp.TimerWheel
use uv_cpp.TimerWheel.{TimerWheel, member, wheel_callback, next_index, empty_sets}
use uv_cpp.TimerWheel.Ticks
use uv_cpp.TimerWheel.Ticks.{ticked, slot, due}
use uv_cpp.Tcp.Connection.{TcpConnection}
use uv_cpp.Tcp.Connections.{lookup}
use uv_cpp.Tcp.Server.{TcpServer, Action, held}
use uv_cpp.Tcp.Server.Run.{dead, tick, ticks}
use uv_cpp.Tcp.Server.Watch.{IsValid, tracked, watched, gone}
use uv_cpp.Tcp.Server.Watch.Drop.{drop_wrappers-Dropped}

held-set :
    (i k : ℕ) (slots : List (List ℕ))
    → held i slots ≡ true
    → held i (set slots k []) ≡ false
    → member i (get_or slots k []) ≡ true
unfolding held member
held-set i k [] h g = ground arith
held-set i zero (xs ∷ slots) h g = ground arith
held-set i (suc k) (xs ∷ slots) h g = ground (arith, held-set i k slots)

member-dead :
    (i : ℕ) (slots : List (List ℕ)) (xs : List ℕ)
    → member i (dead slots xs) ≡ member i xs && (if held i slots then false else true)
unfolding member dead
member-dead i slots [] = refl
member-dead i slots (x ∷ xs) = elim (Bool-cases (x == i)) [
  | inl same ↦
      let e : x ≡ i = ground arith in
      elim (Bool-cases (held x slots)) [
        | inl alive ↦ ground (arith, alive, ap (λ j. held j slots) e, same, member-dead i slots xs)
        | inr lost ↦ ground (arith, lost, ap (λ j. held j slots) e, same, member-dead i slots xs)
      ]
  | inr other ↦ ground (arith, member-dead i slots xs)
]

held-empty_sets : (i n : ℕ) → held i (empty_sets n) ≡ false
unfolding held empty_sets member
held-empty_sets i zero = refl
held-empty_sets i (suc n) = held-empty_sets i n

pub held_slot :
    (i k : ℕ) (slots : List (List ℕ)) → member i (get_or slots k []) ≡ true → held i slots ≡ true
unfolding held member
held_slot i k [] h = h
held_slot i zero (xs ∷ slots) h = ground arith
held_slot i (suc k) (xs ∷ slots) h = ground (arith, held_slot i k slots)

module _ (uv : Handles) where
  -- The wrapper of a connection is somewhere in the slots.
  unfoldable pub alive : List (List ℕ) → TcpConnection uv.Handle → Bool
  alive slots c = elim c.wrapper [ none ↦ false | some i ↦ held i slots ]

  gone-dead :
      (slots : List (List ℕ)) (xs : List ℕ) (c : TcpConnection uv.Handle)
      → alive slots c ≡ true
      → gone (dead slots xs) c ≡ false
  unfolding alive
  gone-dead slots xs c h = elim (Option-cases c.wrapper) [
    | inl missing ↦ ground (arith, missing)
    | inr found ↦ ground (arith, found.1, member-dead found.0 slots xs)
  ]

  -- Connections that are open, and whose wrapper has not been destroyed, are watched by the new wheel.
  tracked-ticked :
      (names : List Bytes) (slots : List (List ℕ)) (k : ℕ) (name : Bytes)
      (c : TcpConnection uv.Handle)
      → tracked uv names slots name c ≡ true
      → (uv.is_closing c.handle ≡ true)
        ⊎ (gone (dead (set slots k []) (get_or slots k [])) c ≡ false)
      → tracked uv names (set slots k []) name c ≡ true
  unfolding tracked watched
  tracked-ticked names slots k name c t (inl h) = ground (arith, t, h)
  tracked-ticked names slots k name c t (inr g) = elim (Option-cases c.wrapper) [
    | inl missing ↦ ground (arith, t, missing)
    | inr found ↦ elim (Bool-cases (held found.0 (set slots k []))) [
      | inl kept ↦ ground (arith, t, found.1, kept)
      | inr lost ↦ ground (
        arith,
        t,
        g,
        found.1,
        lost,
        held-set found.0 k slots,
        member-dead found.0 (set slots k []) (get_or slots k []),
      )
    ]
  ]

  -- One second: the connections stay well formed, those whose wrapper the wheel still has are as
  -- before, and every connection was there before or is being closed.
  pub tick-IsValid :
      (s : TcpServer uv.Handle)
      → IsValid uv s
      → (xs : List Action) × (s' : TcpServer uv.Handle) × (tick uv s ≡ some (xs, s'))
        × IsValid uv s'
        × (s'.timer_wheel ≡ ticked s.timer_wheel)
        × (s'.wrappers ≡ s.wrappers)
        × ((name : Bytes) (c : TcpConnection uv.Handle)
            → lookup name s.connnections ≡ some c
            → alive (ticked s.timer_wheel).wheel c ≡ true
            → lookup name s'.connnections ≡ some c)
        × ((name : Bytes) (c : TcpConnection uv.Handle)
            → lookup name s.connnections ≡ some c
            → (c' : TcpConnection uv.Handle) × (lookup name s'.connnections ≡ some c'))
  unfolding tick
  tick-IsValid s v =
      let w = s.timer_wheel in
      let w' = ticked w in
      let lost = dead w'.wheel (get_or w.wheel w'.index []) in
      let (xs, s', e, d) =
        drop_wrappers-Dropped uv w.wheel lost (record s { timer_wheel = w' }) v.tracks in
      (
        xs,
        s',
        rw (Ticks.wheel_callback-ticked w v.wheel, tick) (rw (Ticks.next_index-ticked w v.wheel) e),
        record {
          wheel = rw d.wheel (Ticks.ticked-IsValid w v.wheel);
          tracks = λ name c l. rw d.wheel (
              tracked-ticked s'.wrappers w.wheel w'.index name c (d.tracks name c l)
                (elim (d.closes name c l) [ inl h ↦ inl h | inr h ↦ inr h.1 ]));
        },
        d.wheel,
        d.wrappers,
        λ name c l h. d.keeps name c l (gone-dead w'.wheel (get_or w.wheel w'.index []) c h),
        d.remains,
      )

  ticks-IsValid :
      (n : ℕ) (s : TcpServer uv.Handle)
      → IsValid uv s
      → (xs : List Action) × (s' : TcpServer uv.Handle) × (ticks uv n s ≡ some (xs, s'))
        × IsValid uv s'
        × (TimerWheel.ticks n s.timer_wheel ≡ some s'.timer_wheel)
        × ((name : Bytes) (c : TcpConnection uv.Handle)
            → lookup name s.connnections ≡ some c
            → (c' : TcpConnection uv.Handle) × (lookup name s'.connnections ≡ some c'))
  unfolding ticks TimerWheel.ticks
  ticks-IsValid zero s v = ([], s, refl, v, refl, λ name c l. (c, l))
  ticks-IsValid (suc n) s v =
      let (xs, s1, e, v1, w, _, _, r) = tick-IsValid s v in
      let (ys, s2, e', v2, t, r') = ticks-IsValid n s1 v1 in
      (
        xs ++ ys,
        s2,
        rw (e, ticks) (rw e' refl),
        v2,
        rw (Ticks.wheel_callback-ticked s.timer_wheel v.wheel, TimerWheel.ticks)
            (ap (TimerWheel.ticks n) (sym w) ∙ t),
        λ name c l. let (c', l') = r name c l in r' name c' l',
      )

  open_held :
      (names : List Bytes) (slots : List (List ℕ)) (name : Bytes) (c : TcpConnection uv.Handle)
      → tracked uv names slots name c ≡ true
      → ((i : ℕ) → held i slots ≡ false)
      → uv.is_closing c.handle ≡ true
  unfolding tracked watched
  open_held names slots name c t nothing = elim (Option-cases c.wrapper) [
    | inl missing ↦ ground (arith, t, missing)
    | inr found ↦ ground (arith, t, found.1, nothing found.0)
  ]

  -- A server whose connections are well formed runs through as many seconds as its timeout has, if
  -- nothing else happens, without leaving the wheel's vector or using freed memory; then every
  -- connection that it had is still in its map, and is being closed.
  pub ticks-is_closing :
      (s : TcpServer uv.Handle)
      → IsValid uv s
      → (xs : List Action) × (s' : TcpServer uv.Handle) × (ticks uv s.timer_wheel.timeout_sec s
          ≡ some (xs, s'))
        × IsValid uv s'
        × ((name : Bytes) (c : TcpConnection uv.Handle)
            → lookup name s.connnections ≡ some c
            → (c' : TcpConnection uv.Handle) × (lookup name s'.connnections ≡ some c')
              × (uv.is_closing c'.handle ≡ true))
  ticks-is_closing s v =
      let n = s.timer_wheel.timeout_sec in
      let (xs, s', e, v', t, r) = ticks-IsValid n s v in
      let (w, e', _, slots) = Ticks.ticks-timeout s.timer_wheel v.wheel in
      let same : s'.timer_wheel ≡ w = ground (arith, t, e') in
      let empty : s'.timer_wheel.wheel ≡ empty_sets n = rw same slots in
      (
        xs,
        s',
        e,
        v',
        λ name c l.
            let (c', l') = r name c l in
            (
              c',
              l',
              open_held s'.wrappers s'.timer_wheel.wheel name c' (v'.tracks name c' l')
                  λ i. rw empty (held-empty_sets i n),
            ),
      )
