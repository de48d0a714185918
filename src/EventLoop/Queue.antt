-- ===== src/EventLoop/Queue.antt =====
-- uv/Async.cpp: the queue of functions that are handed to a loop, and the wake-ups for it.
use uv_cpp.Prelude.{
  ℕ, ◌≡◌, refl, ap, sym, ◌∙◌, Bool, true, false, not, ◌||◌, List, [], ◌∷◌, ◌++◌, ltb, append-nil,
  append_assoc, arith, Bool-cases, inl, inr, Option-cases, some, Code,
}
use uv_cpp.EventLoop.{
  Status, not_run, runed, Handle, in_use, closing, freed, Async, EventLoop, World, new_world,
  init_new, init_ready, push, send, swap_callbacks, close, free, begin_run, stop, initialised,
  with_async, Step, post_direct, post_check, post_push, post_send, handle_made, handle_ready,
  run_begins, wake, call, stop_called, handle_closed, run_ends, run_no_wait_ends, Steps, here,
  and_then,
}

abbrev none_left : List ℕ → Bool
none_left [] = true
none_left (f ∷ fs) = false

-- The handle that a send would wake the loop with.
abbrev wakes : Handle → Bool
wakes in_use = true
wakes _ = false

-- `uv_close` has been called for the handle.
abbrev pub is_closed : Handle → Bool
is_closed closing = true
is_closed freed = true
is_closed _ = false

abbrev ready_for : Status → Handle → Bool
ready_for not_run h = true
ready_for _ h = initialised h

-- What has been queued has been called, is about to be, or is in the queue; and if something is in the
-- queue, a wake-up is due or will be sent, or there is no handle to send it with.
pub record IsValid (w : World) : Type 0 where
  pub order : w.posted ≡ w.ran ++ (w.batch ++ w.loop.async.callbacks)
  pub due :
      none_left w.loop.async.callbacks
        || (w.loop.async.pending || (ltb 0 w.unsent || not (wakes w.loop.async.handle)))
      ≡ true
  pub ready : ready_for w.loop.status w.loop.async.handle ≡ true

-- What a step of a member leaves: the queue, a wake-up that is due, and a handle that is there.
record Keeps (a b : Async) : Type 0 where
  same : a.callbacks ≡ b.callbacks
  stays : a.pending || not (wakes a.handle) ≡ true → b.pending || not (wakes b.handle) ≡ true
  there : initialised a.handle ≡ true → initialised b.handle ≡ true

send-Keeps :
    (a b : Async) → send a ≡ some b → Keeps a b × (b.pending || not (wakes b.handle) ≡ true)
unfolding send initialised
send-Keeps a b h = (
  record {
    same = ground (arith, h);
    stays = λ e. ground (arith, h);
    there = λ e. ground (arith, h, e);
  },
  ground (arith, h),
)

init_new-Keeps : (a : Async) → Keeps a (init_new a)
unfolding init_new initialised
init_new-Keeps a = record {
  same = ground arith;
  stays = λ e. ground (arith, e);
  there = λ e. ground (arith, e);
}

init_ready-Keeps : (a : Async) → Keeps a (init_ready a)
unfolding init_ready initialised
init_ready-Keeps a = record {
  same = ground arith;
  stays = λ e. ground (arith, e);
  there = λ e. ground (arith, e);
}

close-Keeps : (a b : Async) → close a ≡ some b → Keeps a b
unfolding close initialised
close-Keeps a b h = record {
  same = ground (arith, h);
  stays = λ e. ground (arith, h, e);
  there = λ e. ground (arith, h, e);
}

free-Keeps : (a : Async) → Keeps a (free a)
unfolding free initialised
free-Keeps a = record { same = refl; stays = λ e. ground arith; there = λ e. refl }

stop-Keeps :
    (l m : EventLoop) (c : Code)
    → stop l ≡ some (c, m)
    → Keeps l.async m.async × (l.status ≡ m.status)
unfolding stop
stop-Keeps l m c h = elim (Option-cases (close l.async)) [
  | inl fault ↦ (
    record {
      same = ground (arith, h, fault);
      stays = λ e. ground (arith, h, fault, e);
      there = λ e. ground (arith, h, fault, e);
    },
    ground (arith, h, fault),
  )
  | inr done ↦
      let k = close-Keeps l.async done.0 done.1 in
      (
        record {
          same = ground (arith, h, done.1, k.same);
          stays = λ e. ground (arith, h, done.1, e, k.stays e);
          there = λ e. ground (arith, h, done.1, e, k.there e);
        },
        ground (arith, h, done.1),
      )
]

-- The loop with another Async, which keeps what is due.
Keeps-IsValid :
    (w : World) (l : EventLoop)
    → IsValid w
    → Keeps w.loop.async l.async
    → w.loop.status ≡ l.status
    → IsValid (record w { loop = l })
Keeps-IsValid w l v k e = record {
  order = v.order ∙ ap (λ x. w.ran ++ (w.batch ++ x)) k.same;
  due = elim (Bool-cases (w.loop.async.pending || not (wakes w.loop.async.handle))) [
    | inl woken ↦ ground (arith, k.stays woken)
    | inr asleep ↦ ground (arith, v.due, asleep, k.same)
  ];
  ready = elim (Bool-cases (initialised w.loop.async.handle)) [
    | inl made ↦ ground (arith, k.there made)
    | inr missing ↦ ground (arith, v.ready, missing, e)
  ];
}

Step-IsValid : {w u : World} → Step w u → IsValid w → IsValid u
unfolding push swap_callbacks begin_run
Step-IsValid (post_direct t f h) v = record { order = v.order; due = v.due; ready = v.ready }
Step-IsValid (post_check t f h) v = record { order = v.order; due = v.due; ready = v.ready }
Step-IsValid {w} (post_push fs gs f h) v = record {
  order =
      ap (λ x. x ++ f ∷ []) v.order
      ∙ (append_assoc w.ran (w.batch ++ w.loop.async.callbacks) (f ∷ [])
          ∙ ap (λ x. w.ran ++ x) (append_assoc w.batch w.loop.async.callbacks (f ∷ [])));
  due = ground arith;
  ready = v.ready;
}
Step-IsValid {w} (post_send n a h e) v =
    let (k, woken) = send-Keeps w.loop.async a e in
    record {
      order = v.order ∙ ap (λ x. w.ran ++ (w.batch ++ x)) k.same;
      due = ground (arith, woken);
      ready = (Keeps-IsValid w (with_async w a) v k refl).ready;
    }
Step-IsValid {w} (handle_made h) v =
    Keeps-IsValid w (with_async w (init_new w.loop.async)) v (init_new-Keeps w.loop.async) refl
Step-IsValid {w} (handle_ready h) v =
    Keeps-IsValid w (with_async w (init_ready w.loop.async)) v (init_ready-Keeps w.loop.async) refl
Step-IsValid {w} (run_begins t h r) v = record {
  order = rw (h, begin_run) v.order;
  due = rw (h, begin_run) v.due;
  ready = rw (h, begin_run) r;
}
Step-IsValid {w} (wake r o p b) v = record {
  order = v.order ∙ ap (λ x. w.ran ++ x) (rw b (sym (append-nil w.loop.async.callbacks)));
  due = refl;
  ready = v.ready;
}
Step-IsValid {w} (call f fs b) v = record {
  order = v.order ∙ rw b (sym (append_assoc w.ran (f ∷ []) (fs ++ w.loop.async.callbacks)));
  due = v.due;
  ready = v.ready;
}
Step-IsValid {w} (stop_called c l h) v =
    let (k, e) = stop-Keeps w.loop l c h in Keeps-IsValid w l v k e
Step-IsValid {w} (handle_closed r c b) v =
    Keeps-IsValid w (with_async w (free w.loop.async)) v (free-Keeps w.loop.async) refl
Step-IsValid {w} (run_ends r b c) v = record {
  order = v.order;
  due = v.due;
  ready = rw r at v.ready;
}
Step-IsValid (run_no_wait_ends r b) v = record { order = v.order; due = v.due; ready = refl }

new_world-IsValid : IsValid new_world
new_world-IsValid = record { order = refl; due = refl; ready = refl }

-- In every world that any interleaving of steps leads to from a new loop (a call that is undefined
-- behaviour, such as a send on a handle that is not initialised yet or has been freed, is no
-- step): what has been queued is what has been called from the queue, then what is about to be
-- called, then what is in the queue, each once and in order; if the queue is not empty, a wake-up
-- is pending or will be sent, or there is no handle in use yet, or the handle is closed; and a
-- loop that has begun to run has a handle that is initialised.
pub Steps-IsValid : {w : World} → Steps new_world w → IsValid w
Steps-IsValid here = new_world-IsValid
Steps-IsValid (and_then steps s) = Step-IsValid s (Steps-IsValid steps)

pub Steps-trans : {w v u : World} → Steps w v → Steps v u → Steps w u
Steps-trans a here = a
Steps-trans a (and_then b s) = and_then (Steps-trans a b) s

none_left_nil : (fs : List ℕ) → none_left fs ≡ true → fs ≡ []
none_left_nil [] h = refl
none_left_nil (f ∷ fs) h = cc

-- After the swap of `process`.
abbrev taken : World → World
taken w = record w {
  loop = with_async w (swap_callbacks w.loop.async).1;
  batch = (swap_callbacks w.loop.async).0;
}

taken-batch : (w : World) → (taken w).batch ≡ w.loop.async.callbacks
unfolding swap_callbacks
taken-batch w = refl

-- `process` calls what it has taken, in order.
call_all :
    (fs : List ℕ) (w : World) → w.batch ≡ fs → Steps w (record w { batch = []; ran = w.ran ++ fs })
call_all [] w e = rw (append-nil w.ran, sym e) here
call_all (f ∷ fs) w e =
    let v : World = record w { batch = fs; ran = w.ran ++ f ∷ [] } in
    let rest = call_all fs v refl in
    rw (sym (append_assoc w.ran (f ∷ []) fs)) (Steps-trans (and_then here (call f fs e)) rest)

open_handle : (h : Handle) → initialised h ≡ true → is_closed h ≡ false → h ≡ in_use
unfolding initialised
open_handle h r c = ground (arith, r, c)

-- From every world that any interleaving of steps leads to from a new loop, if the loop is
-- running, its handle is not closed and no call is between its queueing and its send, there are
-- steps to a world in which everything that had been queued has been called from the queue, in
-- order.
pub Steps-drain :
    {w : World}
    → Steps new_world w
    → w.loop.status ≡ runed
    → is_closed w.loop.async.handle ≡ false
    → w.unsent ≡ 0
    → (u : World) × Steps w u × (u.ran ≡ w.posted)
Steps-drain {w} steps r c n =
    let v = Steps-IsValid steps in
    let ready : initialised w.loop.async.handle ≡ true = rw r at v.ready in
    let handle = open_handle w.loop.async.handle ready c in
    let called : World = record w { batch = []; ran = w.ran ++ w.batch } in
    let one = call_all w.batch w refl in
    elim (Bool-cases (none_left w.loop.async.callbacks)) [
      | inl empty ↦ (
        called,
        one,
        sym (
            v.order
            ∙ ap (λ x. w.ran ++ x)
                (ap (λ x. w.batch ++ x) (none_left_nil w.loop.async.callbacks empty)
                  ∙ append-nil w.batch)),
      )
      | inr more ↦
          let pending : w.loop.async.pending ≡ true = ground (arith, v.due, more, n, handle) in
          let woken : Step called (taken called) = wake r handle pending refl in
          let rest = call_all w.loop.async.callbacks (taken called) (taken-batch called) in
          (
            _,
            Steps-trans (and_then one woken) rest,
            append_assoc w.ran w.batch w.loop.async.callbacks ∙ sym v.order,
          )
    ]
