-- ===== src/Idle.antt =====
-- uv/Idle.cpp: a function that is called in each round of the loop. The destructor deletes the handle after
-- `uv_idle_stop`, without `uv_close`.
use uv_cpp.Prelude.{ℕ, List, [], ◌∷◌, Option, none, some}

pub data Action : Type 0 where
  uv_idle_init uv_idle_start uv_idle_stop delete_handle : Action
  called : ℕ → Action

pub record Idle : Type 0 where
  pub callback : Option ℕ

abbrev pub new_idle : List Action × Idle
new_idle = (uv_idle_init ∷ uv_idle_start ∷ [], record { callback = none })

abbrev pub destroy : Idle → List Action
destroy i = uv_idle_stop ∷ delete_handle ∷ []

pub on_callback : Idle → List Action
on_callback i = elim i.callback [ none ↦ [] | some k ↦ called k ∷ [] ]

pub set_callback : Idle → ℕ → Idle
set_callback i k = record i { callback = some k }
