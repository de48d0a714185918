-- ===== src/EventLoop/Tests.antt =====
-- Thread 2 hands the functions 7 and 8 to a loop, before and while thread 1 runs it, and the function 9
-- when it is being stopped.
use uv_cpp.Prelude.{◌≡◌, refl, true, [], ◌∷◌, ok}
use uv_cpp.EventLoop.{
  World, new_world, runed, stopped, in_use, closing, freed, push, send, stop, init_new, init_ready,
  close, free, begin_run, initialised, runs_at_once, is_run_in_loop_thread, is_stoped, with_async,
  post_check, post_push, post_send, handle_made, handle_ready, run_begins, stop_called,
  handle_closed, run_ends, Steps, here, and_then,
}
use uv_cpp.EventLoop.Queue.{IsValid, Steps-IsValid, Steps-drain}
use uv_cpp.EventLoop.Stopped.{served, Steps-closed}

abbrev sent : World
sent = record new_world {
  loop = record {
    status = runed;
    loop_thread = 1;
    async = record { handle = in_use; pending = true; callbacks = 7 ∷ [] };
  };
  posted = 7 ∷ [];
}

sent-Steps : Steps new_world sent
unfolding push send init_new init_ready begin_run initialised runs_at_once is_run_in_loop_thread
    is_stoped
sent-Steps =
    and_then
      (and_then
        (and_then
          (and_then (and_then (and_then here (post_check 2 7 refl)) (post_push [] [] 7 refl))
            (post_send 0 _ refl refl))
          (handle_made refl))
        (handle_ready refl))
      (run_begins 1 refl refl)

abbrev busy : World
busy = record sent {
  loop = with_async sent (record { handle = in_use; pending = true; callbacks = 7 ∷ 8 ∷ [] });
  posted = 7 ∷ 8 ∷ [];
}

busy-Steps : Steps new_world busy
unfolding push send runs_at_once is_run_in_loop_thread is_stoped
busy-Steps =
    and_then (and_then (and_then sent-Steps (post_check 2 8 refl)) (post_push [] [] 8 refl))
      (post_send 0 _ refl refl)

Steps-IsValid_example : IsValid busy
Steps-IsValid_example = Steps-IsValid busy-Steps

Steps-drain_example : (u : World) × Steps busy u × (u.ran ≡ 7 ∷ 8 ∷ [])
Steps-drain_example = Steps-drain busy-Steps refl refl refl

abbrev stopping : World
stopping = record busy {
  loop = with_async busy (record { handle = closing; pending = true; callbacks = 7 ∷ 8 ∷ [] });
}

stopping-Steps : Steps new_world stopping
unfolding stop close
stopping-Steps = and_then busy-Steps (stop_called ok _ refl)

-- The function 9 is queued between `stop` and the end of the loop.
abbrev over : World
over = record stopping {
  loop = record {
    status = stopped;
    loop_thread = 1;
    async = record { handle = freed; pending = true; callbacks = 7 ∷ 8 ∷ 9 ∷ [] };
  };
  posted = 7 ∷ 8 ∷ 9 ∷ [];
}

over-Steps : Steps stopping over
unfolding push send free runs_at_once is_run_in_loop_thread is_stoped
over-Steps =
    and_then
      (and_then
        (and_then (and_then (and_then here (post_check 2 9 refl)) (post_push [] [] 9 refl))
          (post_send 0 _ refl refl))
        (handle_closed refl refl refl))
      (run_ends refl refl refl)

Steps-closed_example : (served over ≡ []) × (over.posted ≡ 7 ∷ 8 ∷ 9 ∷ [])
Steps-closed_example = Steps-closed stopping-Steps refl over-Steps
