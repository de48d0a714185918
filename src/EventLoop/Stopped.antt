-- ===== src/EventLoop/Stopped.antt =====
-- uv/EventLoop.cpp: what is handed to a loop that is being stopped.
use uv_cpp.Prelude.{
  ℕ, ◌≡◌, refl, ap, sym, ◌∙◌, true, List, [], ◌∷◌, ◌++◌, arith, some, Code, append_assoc,
  Option-cases, inl, inr,
}
use uv_cpp.EventLoop.{
  Async, EventLoop, World, new_world, init_new, init_ready, push, send, close, free, begin_run,
  stop, Step, post_direct, post_check, post_push, post_send, handle_made, handle_ready, run_begins,
  wake, call, stop_called, handle_closed, run_ends, run_no_wait_ends, Steps, here, and_then,
}
use uv_cpp.EventLoop.Queue.{is_closed, Steps-IsValid, Steps-trans}

-- What has been called from the queue, and what `process` is about to call.
abbrev pub served : World → List ℕ
served w = w.ran ++ w.batch

send-is_closed :
    (a b : Async) → send a ≡ some b → is_closed a.handle ≡ true → is_closed b.handle ≡ true
unfolding send
send-is_closed a b h c = ground (arith, h, c)

close-is_closed :
    (a b : Async) → close a ≡ some b → is_closed a.handle ≡ true → is_closed b.handle ≡ true
unfolding close
close-is_closed a b h c = ground (arith, h, c)

stop-is_closed :
    (l m : EventLoop) (k : Code)
    → stop l ≡ some (k, m)
    → is_closed l.async.handle ≡ true
    → is_closed m.async.handle ≡ true
unfolding stop
stop-is_closed l m k h c = elim (Option-cases (close l.async)) [
  | inl fault ↦ ground (arith, h, fault, c)
  | inr done ↦ ground (arith, h, done.1, close-is_closed l.async done.0 done.1 c)
]

Step-served :
    {w u : World}
    → Step w u
    → is_closed w.loop.async.handle ≡ true
    → (is_closed u.loop.async.handle ≡ true) × (served u ≡ served w)
unfolding push begin_run init_new init_ready free
Step-served (post_direct t f h) c = (c, refl)
Step-served (post_check t f h) c = (c, refl)
Step-served (post_push fs gs f h) c = (c, refl)
Step-served {w} (post_send n a h e) c = (send-is_closed w.loop.async a e c, refl)
Step-served (handle_made h) c = (ground (arith, c), refl)
Step-served (handle_ready h) c = (ground (arith, c), refl)
Step-served (run_begins t h r) c = (rw (h, begin_run) c, refl)
Step-served (wake r o p b) c = absurd (ground (arith, o, c))
Step-served {w} (call f fs b) c = (c, append_assoc w.ran (f ∷ []) fs ∙ ap (λ x. w.ran ++ x) (sym b))
Step-served {w} (stop_called k l h) c = (stop-is_closed w.loop l k h c, refl)
Step-served (handle_closed r o b) c = (refl, refl)
Step-served (run_ends r b o) c = (c, refl)
Step-served (run_no_wait_ends r b) c = (c, refl)

Steps-served :
    {w u : World}
    → Steps w u
    → is_closed w.loop.async.handle ≡ true
    → (is_closed u.loop.async.handle ≡ true) × (served u ≡ served w)
Steps-served here c = (c, refl)
Steps-served (and_then steps s) c =
    let (c', e) = Steps-served steps c in let (c'', e') = Step-served s c' in (c'', e' ∙ e)

-- Once a new loop has come to a world in which `uv_close` has been called for its handle, no
-- further steps, whichever they are, call anything from the queue: what has been called or is
-- about to be called stays what it was, and everything else that has been queued, before or after
-- that, is still in the queue.
pub Steps-closed :
    {w u : World}
    → Steps new_world w
    → is_closed w.loop.async.handle ≡ true
    → Steps w u
    → (served u ≡ served w) × (u.posted ≡ served w ++ u.loop.async.callbacks)
Steps-closed {w} {u} first c more =
    let (_, e) = Steps-served more c in
    let v = Steps-IsValid (Steps-trans first more) in
    (
      e,
      v.order
          ∙ (sym (append_assoc u.ran u.batch u.loop.async.callbacks)
              ∙ ap (λ x. x ++ u.loop.async.callbacks) e),
    )
