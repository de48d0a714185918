-- ===== src/Tcp/Server/Watch/Drop.antt =====
-- uv/TcpServer.cpp and uv/include/TcpConnection.hpp: what the server does when wrappers are destroyed.
use uv_cpp.Prelude.{
  ℕ, ◌≡◌, ◌∙◌, refl, sym, ap, true, false, Bytes, List, [], ◌∷◌, ◌++◌, get_or, some, arith,
  Bool-cases, Option-cases, inl, inr, ◌⊎◌,
}
use uv_cpp.Http.Text.{equal}
use uv_cpp.Http.Text.Find.{equal_iff}
use uv_cpp.Uv.{Handles}
use uv_cpp.TimerWheel.{member}
use uv_cpp.Tcp.Connection
use uv_cpp.Tcp.Connection.{Function, server, client, user, TcpConnection}
use uv_cpp.Tcp.Connections.{lookup, update, lookup-update, lookup-update_cases}
use uv_cpp.Tcp.Server.Watch.{
  tracked, closed, closing_acts, gone, close_connection_open, own_name, closing_silent, open_tells,
  owner, tracked_closed, reacts-socket_closed, on_socket_close_open,
}
use uv_cpp.Tcp.Server.{TcpServer, Action, reacts}
use uv_cpp.Tcp.Server.Run.{wraps, drop_wrapper, drop_wrappers}

-- What is left of the connections when the wrappers `is` have been destroyed.
pub record Dropped (uv : Handles) (slots : List (List ℕ)) (is : List ℕ) (s s' : TcpServer uv.Handle)
    : Type 0 where
  pub wheel : s'.timer_wheel ≡ s.timer_wheel
  pub wrappers : s'.wrappers ≡ s.wrappers
  pub tracks :
      (name : Bytes) (c : TcpConnection uv.Handle)
      → lookup name s'.connnections ≡ some c
      → tracked uv s'.wrappers slots name c ≡ true
  pub closes :
      (name : Bytes) (c : TcpConnection uv.Handle)
      → lookup name s'.connnections ≡ some c
      → (uv.is_closing c.handle ≡ true)
        ⊎ ((lookup name s.connnections ≡ some c) × (gone is c ≡ false))
  pub keeps :
      (name : Bytes) (c : TcpConnection uv.Handle)
      → lookup name s.connnections ≡ some c
      → gone is c ≡ false
      → lookup name s'.connnections ≡ some c
  pub remains :
      (name : Bytes) (c : TcpConnection uv.Handle)
      → lookup name s.connnections ≡ some c
      → (c' : TcpConnection uv.Handle) × (lookup name s'.connnections ≡ some c')

module _ (uv : Handles) where
  module _ (slots : List (List ℕ)) (i : ℕ) (s : TcpServer uv.Handle)
      (t : (name : Bytes) (c : TcpConnection uv.Handle)
        → lookup name s.connnections ≡ some c
        → tracked uv s.wrappers slots name c ≡ true) where
    unchanged :
        ((name : Bytes) (c : TcpConnection uv.Handle)
          → lookup name s.connnections ≡ some c
          → uv.is_closing c.handle ≡ false
          → gone (i ∷ []) c ≡ false)
        → Dropped uv slots (i ∷ []) s s
    unchanged still = record {
      wheel = refl;
      wrappers = refl;
      tracks = t;
      closes = λ name c e. elim (Bool-cases (uv.is_closing c.handle)) [
        | inl h ↦ inl h
        | inr h ↦ inr (e, still name c e h)
      ];
      keeps = λ name c e k. e;
      remains = λ name c e. (c, e);
    }

    -- The only open connection with the wrapper is the one that it was made for.
    same_connection :
        (c0 : TcpConnection uv.Handle) (name : Bytes) (c : TcpConnection uv.Handle)
        → lookup (get_or s.wrappers i []) s.connnections ≡ some c0
        → lookup name s.connnections ≡ some c
        → uv.is_closing c.handle ≡ false
        → gone (i ∷ []) c ≡ true
        → c ≡ c0
    same_connection c0 name c e0 e h lost =
        ground (arith, e0, e, owner uv s.wrappers slots name c (t name c e) i h lost)

    module _ (name0 : Bytes) (c0 : TcpConnection uv.Handle)
        (e0 : lookup name0 s.connnections ≡ some c0) where
      closed-Dropped :
          get_or s.wrappers i [] ≡ name0
          → gone (i ∷ []) c0 ≡ true
          → uv.is_closing c0.handle ≡ false
          → Dropped uv slots
              (i ∷ [])
              s
              (record s { connnections = update name0 (closed uv c0) s.connnections })
      closed-Dropped n g o =
          let (_, _, h, cb, nm) = close_connection_open uv s name0 c0 e0 o in
          let nm' : (closed uv c0).name ≡ name0 =
            nm ∙ own_name uv s.wrappers slots name0 c0 (t name0 c0 e0) in
          let split = λ (name : Bytes) (c : TcpConnection uv.Handle).
            lookup-update_cases name0 name (closed uv c0) c0 c s.connnections e0 in
          record {
            wheel = refl;
            wrappers = refl;
            tracks = λ name c e. elim (split name c e) [
              | inl same ↦
                  rw (same.1, sym same.0)
                    (tracked_closed uv s.wrappers slots name0 (closed uv c0) nm' h cb)
              | inr other ↦ t name c other.1
            ];
            closes = λ name c e. elim (split name c e) [
              | inl same ↦ inl (rw same.1 h)
              | inr other ↦ elim (Bool-cases (uv.is_closing c.handle)) [
                | inl h ↦ inl h
                | inr h ↦ inr (
                  other.1,
                  elim (Bool-cases (gone (i ∷ []) c)) [
                    | inr kept ↦ kept
                    | inl lost ↦
                        let own = owner uv s.wrappers slots name c (t name c other.1) i h lost in
                        ground (arith, own, n, equal_iff name0 name, other.0)
                  ],
                )
              ]
            ];
            remains = λ name c e. elim (Bool-cases (equal name0 name)) [
              | inl same ↦ (
                closed uv c0,
                lookup-update name0 name (closed uv c0) c0 s.connnections e0 ∙ rw same refl,
              )
              | inr other ↦
                  (c, lookup-update name0 name (closed uv c0) c0 s.connnections e0 ∙ rw other e)
            ];
            keeps = λ name c e k. elim (Bool-cases (equal name0 name)) [
              | inr other ↦
                  ground
                    (arith, e, other, lookup-update name0 name (closed uv c0) c0 s.connnections e0)
              | inl same ↦
                  let eqn = (equal_iff name0 name).0 same in
                  let it : c ≡ c0 = ground (arith, e, e0, eqn) in
                  ground (arith, k, g, ap (gone (i ∷ [])) it)
            ];
          }

    wraps-gone : (c : TcpConnection uv.Handle) → gone (i ∷ []) c ≡ wraps i c
    unfolding wraps member
    wraps-gone c = ground arith

    drop_wrapper-Dropped :
        (xs : List Action) × (s' : TcpServer uv.Handle) × (drop_wrapper uv i s ≡ some (xs, s'))
        × Dropped uv slots (i ∷ []) s s'
    unfolding drop_wrapper Connection.on_socket_close Connection.calls reacts
    drop_wrapper-Dropped =
        let name0 = get_or s.wrappers i [] in
        elim (Option-cases (lookup name0 s.connnections)) [
          | inl missing ↦ (
            [],
            s,
            rw (missing, drop_wrapper) refl,
            unchanged λ name c e h. elim (Bool-cases (gone (i ∷ []) c)) [
              | inr kept ↦ kept
              | inl lost ↦
                  ground (arith, owner uv s.wrappers slots name c (t name c e) i h lost, e, missing)
            ],
          )
          | inr found ↦
              let c0 = found.0 in
              let t0 = t name0 c0 found.1 in
              elim (Bool-cases (wraps i c0)) [
                | inr other ↦ (
                  [],
                  s,
                  rw (found.1, drop_wrapper) (rw other refl),
                  unchanged λ name c e h. elim (Bool-cases (gone (i ∷ []) c)) [
                    | inr kept ↦ kept
                    | inl lost ↦ ground (
                      arith,
                      other,
                      lost,
                      ap (wraps i) (same_connection c0 name c found.1 e h lost),
                      wraps-gone c,
                    )
                  ],
                )
                | inl its ↦ elim (Bool-cases (uv.is_closing c0.handle)) [
                  | inl done ↦ (
                    [],
                    s,
                    rw (found.1, drop_wrapper)
                        (rw (its, closing_silent uv s.wrappers slots name0 c0 t0 done) refl),
                    unchanged λ name c e h. elim (Bool-cases (gone (i ∷ []) c)) [
                      | inr kept ↦ kept
                      | inl lost ↦ ground (
                        arith,
                        done,
                        h,
                        ap (λ c. uv.is_closing c.handle)
                            (same_connection c0 name c found.1 e h lost),
                      )
                    ],
                  )
                  | inr h ↦
                      let (active, e, _, _, _) = close_connection_open uv s name0 c0 found.1 h in
                      let xs = closing_acts name0 active in
                      (
                        xs ++ [],
                        record s { connnections = update name0 (closed uv c0) s.connnections },
                        rw (found.1, drop_wrapper) (rw its refl)
                            ∙ (ap (λ z. reacts uv name0 z s)
                                  (on_socket_close_open uv c0 name0
                                    (open_tells uv s.wrappers slots name0 c0 t0 h)
                                    (own_name uv s.wrappers slots name0 c0 t0))
                                ∙ reacts-socket_closed uv s
                                    (record s {
                                      connnections = update name0 (closed uv c0) s.connnections;
                                    })
                                    name0 name0 xs e),
                        closed-Dropped name0 c0 found.1 refl (ground (arith, its, wraps-gone c0)) h,
                      )
                ]
              ]
        ]

  Dropped-cons :
      (slots : List (List ℕ)) (i : ℕ) (is : List ℕ) (s s1 s2 : TcpServer uv.Handle)
      → Dropped uv slots (i ∷ []) s s1
      → Dropped uv slots is s1 s2
      → Dropped uv slots (i ∷ is) s s2
  unfolding member
  Dropped-cons slots i is s s1 s2 d e = record {
    wheel = e.wheel ∙ d.wheel;
    wrappers = e.wrappers ∙ d.wrappers;
    tracks = e.tracks;
    closes = λ name c l. elim (e.closes name c l) [
      | inl h ↦ inl h
      | inr later ↦ elim (d.closes name c later.0) [
        | inl h ↦ inl h
        | inr first ↦ inr (first.0, ground (arith, first.1, later.1))
      ]
    ];
    remains = λ name c l. let (c', l') = d.remains name c l in e.remains name c' l';
    keeps = λ name c l k. e.keeps name c (d.keeps name c l (ground (arith, k))) (ground (arith, k));
  }

  pub drop_wrappers-Dropped :
      (slots : List (List ℕ)) (is : List ℕ) (s : TcpServer uv.Handle)
      → ((name : Bytes) (c : TcpConnection uv.Handle)
          → lookup name s.connnections ≡ some c
          → tracked uv s.wrappers slots name c ≡ true)
      → (xs : List Action) × (s' : TcpServer uv.Handle) × (drop_wrappers uv is s ≡ some (xs, s'))
        × Dropped uv slots is s s'
  unfolding drop_wrappers member
  drop_wrappers-Dropped slots [] s t = (
    [],
    s,
    refl,
    record {
      wheel = refl;
      wrappers = refl;
      tracks = t;
      closes = λ name c l. inr (l, ground arith);
      keeps = λ name c l k. l;
      remains = λ name c l. (c, l);
    },
  )
  drop_wrappers-Dropped slots (i ∷ is) s t =
      let (xs, s1, e, d) = drop_wrapper-Dropped slots i s t in
      let (ys, s2, e', d') = drop_wrappers-Dropped slots is s1 d.tracks in
      (xs ++ ys, s2, rw (e, drop_wrappers) (rw e' refl), Dropped-cons slots i is s s1 s2 d d')
