-- ===== src/EventLoop.antt =====
-- uv/EventLoop.cpp and uv/Async.cpp: functions that other threads hand to the thread of a loop. A
-- thread and a function are numbers. Of libuv the model has what its documentation says of an async
-- handle: after `uv_async_send` the callback is called once at least, and sends in between are one; once
-- `uv_close` is called, only the function given to it is called. One thread at a time runs the loop.
pub mod Queue
pub mod Stopped
mod Tests
use uv_cpp.Prelude.{
  ℕ, zero, suc, ◌≡◌, Bool, true, false, not, ◌&&◌, ◌||◌, List, [], ◌∷◌, ◌++◌, ◌==◌, if◌then◌else◌,
  Code, ok, failed, Option, none, some, Bytes, codes,
}
use uv_cpp.Http.Number.{ℤ, pos, negsuc}

pub data Status : Type 0 where
  not_run runed stopped : Status

-- The member `handle_` and what it points to: a null pointer, memory that `uv_async_init` has not seen
-- yet, a handle in use, one that `uv_close` was called for, and memory that has been freed.
pub data Handle : Type 0 where
  null fresh in_use closing freed : Handle

-- `pending` says whether a send has not been answered with a call of `process`.
pub record Async : Type 0 where
  pub handle : Handle
  pub pending : Bool
  pub callbacks : List ℕ

pub record EventLoop : Type 0 where
  pub status : Status
  pub loop_thread : ℕ
  pub async : Async

abbrev pub new_event_loop : EventLoop
new_event_loop = record {
  status = not_run;
  loop_thread = 0;
  async = record { handle = null; pending = false; callbacks = [] };
}

-- Async::init in two steps, since the member is set before the handle is.
pub init_new : Async → Async
init_new a = elim a.handle [ null ↦ record a { handle = fresh } | _ ↦ a ]

pub init_ready : Async → Async
init_ready a = elim a.handle [ fresh ↦ record a { handle = in_use; pending = true } | _ ↦ a ]

-- Async::runInThisLoop in two steps: what is done under the lock, and what follows.
pub push : Async → ℕ → Async
push a f = record a { callbacks = a.callbacks ++ f ∷ [] }

-- `none` is undefined behaviour: a send on memory that is no handle yet, or no longer.
pub send : Async → Option Async
send a = elim a.handle [
  | null ↦ some a
  | fresh ↦ none
  | in_use ↦ some (record a { pending = true })
  | closing ↦ some a
  | freed ↦ none
]

-- The swap in `process`: the functions to be called, and what is left.
pub swap_callbacks : Async → List ℕ × Async
swap_callbacks a = (a.callbacks, record a { callbacks = []; pending = false })

-- `none` is undefined behaviour: `uv_is_closing` of no handle.
pub close : Async → Option Async
close a = elim a.handle [
  | in_use ↦ some (record a { handle = closing })
  | closing ↦ some a
  | _ ↦ none
]

-- The function that `close` gives to `uv_close`, less the call of `uv_stop`. The member keeps its value.
pub free : Async → Async
free a = record a { handle = freed }

pub is_stoped : EventLoop → Bool
is_stoped l = elim l.status [ stopped ↦ true | _ ↦ false ]

pub is_run_in_loop_thread : ℕ → EventLoop → Bool
is_run_in_loop_thread t l = elim l.status [ runed ↦ t == l.loop_thread | _ ↦ false ]

-- `run` and `runNoWait` between Async::init and `uv_run`, in the thread `t`.
pub begin_run : ℕ → EventLoop → Code × EventLoop
begin_run t l = elim l.status [
  | not_run ↦ (ok, record l { loop_thread = t; status = runed })
  | _ ↦ (failed, l)
]

pub stop : EventLoop → Option (Code × EventLoop)
unfolding close
stop l = elim l.status [
  | runed ↦ elim (close l.async) [ none ↦ none | some a ↦ some (ok, record l { async = a }) ]
  | _ ↦ some (failed, l)
]

-- Async::init has nothing to do, or has been done.
pub initialised : Handle → Bool
initialised null = false
initialised fresh = false
initialised _ = true

-- Whether EventLoop::runInThisLoop calls the function at once.
pub runs_at_once : ℕ → EventLoop → Bool
unfolding is_run_in_loop_thread is_stoped
runs_at_once t l = is_run_in_loop_thread t l || is_stoped l

-- The loop among its threads. Of the calls of EventLoop::runInThisLoop some have found that they cannot
-- call their function at once, which is in `checked`, and `unsent` ones have queued it and not sent
-- yet. `batch` is what `process` has still to call. What has been queued and called, and called at once, is kept.
pub record World : Type 0 where
  pub loop : EventLoop
  pub checked : List ℕ
  pub unsent : ℕ
  pub batch : List ℕ
  pub posted : List ℕ
  pub ran : List ℕ
  pub direct : List ℕ

abbrev pub new_world : World
new_world = record {
  loop = new_event_loop;
  checked = [];
  unsent = 0;
  batch = [];
  posted = [];
  ran = [];
  direct = [];
}

abbrev pub with_async : World → Async → EventLoop
with_async w a = record (w.loop) { async = a }

-- One step of one of the threads. A call that is undefined behaviour is no step. That `uv_run` returns
-- when the handle has been freed and `uv_stop` called, or with UV_RUN_NOWAIT after one round, is libuv's.
pub data Step (w : World) : World → Type 0 where
  post_direct :
      (t f : ℕ) → runs_at_once t w.loop ≡ true → Step w (record w { direct = w.direct ++ f ∷ [] })
  post_check :
      (t f : ℕ)
      → runs_at_once t w.loop ≡ false
      → Step w (record w { checked = w.checked ++ f ∷ [] })
  post_push :
      (fs gs : List ℕ) (f : ℕ)
      → w.checked ≡ fs ++ f ∷ gs
      → Step w (record w {
        loop = with_async w (push w.loop.async f);
        checked = fs ++ gs;
        unsent = suc w.unsent;
        posted = w.posted ++ f ∷ [];
      })
  post_send :
      (n : ℕ) (a : Async)
      → w.unsent ≡ suc n
      → send w.loop.async ≡ some a
      → Step w (record w { loop = with_async w a; unsent = n })
  handle_made :
      w.loop.status ≡ not_run → Step w (record w { loop = with_async w (init_new w.loop.async) })
  handle_ready :
      w.loop.status ≡ not_run → Step w (record w { loop = with_async w (init_ready w.loop.async) })
  run_begins :
      (t : ℕ)
      → w.loop.status ≡ not_run
      → initialised w.loop.async.handle ≡ true
      → Step w (record w { loop = (begin_run t w.loop).1 })
  wake :
      w.loop.status ≡ runed
      → w.loop.async.handle ≡ in_use
      → w.loop.async.pending ≡ true
      → w.batch ≡ []
      → Step w (record w {
        loop = with_async w (swap_callbacks w.loop.async).1;
        batch = (swap_callbacks w.loop.async).0;
      })
  call :
      (f : ℕ) (fs : List ℕ)
      → w.batch ≡ f ∷ fs
      → Step w (record w { batch = fs; ran = w.ran ++ f ∷ [] })
  stop_called :
      (c : Code) (l : EventLoop) → stop w.loop ≡ some (c, l) → Step w (record w { loop = l })
  handle_closed :
      w.loop.status ≡ runed
      → w.loop.async.handle ≡ closing
      → w.batch ≡ []
      → Step w (record w { loop = with_async w (free w.loop.async) })
  run_ends :
      w.loop.status ≡ runed
      → w.batch ≡ []
      → w.loop.async.handle ≡ freed
      → Step w (record w { loop = record (w.loop) { status = stopped } })
  run_no_wait_ends :
      w.loop.status ≡ runed
      → w.batch ≡ []
      → Step w (record w { loop = record (w.loop) { status = not_run } })

pub data Steps (w : World) : World → Type 0 where
  here : Steps w w
  and_then : {v u : World} → Steps w v → Step v u → Steps w u

-- The destructor; the default loop of libuv is kept, with its Async.
pub data LoopAction : Type 0 where
  uv_loop_close delete_async delete_loop : LoopAction

pub destroy : Bool → List LoopAction
destroy is_default = if is_default then [] else uv_loop_close ∷ delete_async ∷ delete_loop ∷ []

-- Async::onCloseCompleted, which libuv calls when the handle has been closed: the function of the last
-- `close`, if it is not null.
pub on_close_completed : Option ℕ → List ℕ
on_close_completed none = []
on_close_completed (some k) = k ∷ []

-- GetErrorMessage: WriteInfo::Disconnected is -1.
pub get_error_message : (ℤ → Bytes) → ℤ → Bytes
get_error_message uv_strerror (pos n) = uv_strerror (pos n)
get_error_message uv_strerror (negsuc n) =
    if n == 0 then codes "the connection is disconnected" else uv_strerror (negsuc n)
