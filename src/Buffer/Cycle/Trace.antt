-- ===== src/Buffer/Cycle/Trace.antt =====
-- uv/CycleBuffer.cpp: sequences of calls, and a bounded queue of bytes to compare them with.
use uv_cpp.Prelude.{
  ℕ, ◌+◌, ◌<◌, ◌≤◌, ◌^◌, ◌≡◌, refl, ap, ◌∙◌, Bytes, List, [], ◌∷◌, ◌++◌, length, take, drop, ltb,
  leb, if◌then◌else◌, Code, ok, failed, arith, Bool-cases, inl, inr,
}
use uv_cpp.Buffer.Cycle.Array.{length-range}
use uv_cpp.Buffer.Cycle.{CycleBuffer, create, clear, append, read_buffer_n, clear_buffer_n}
use uv_cpp.Buffer.Cycle.Inv.{IsValid, create-IsValid, clear-IsValid}
use uv_cpp.Buffer.Cycle.Contents.{contents}
use uv_cpp.Buffer.Cycle.Append.{append_queue}
use uv_cpp.Buffer.Cycle.Read.{read_buffer_n_queue, clear_buffer_n_queue, contents-clear}

pub data Call : Type 0 where
  append_call : Bytes → Call
  read_call clear_n_call : ℕ → Call
  clear_call : Call

clear_code : (b : CycleBuffer) → (clear b).0 ≡ ok
unfolding clear
clear_code b = refl

module _ (cap : ℕ) where
  -- A call, with what it returns and, for a read into an empty string, the bytes read.
  pub step : CycleBuffer → Call → (Code × Bytes) × CycleBuffer
  step b (append_call bytes) = let r = append cap b bytes in ((r.0, []), r.1)
  step b (read_call n) = (read_buffer_n cap b [] n, b)
  step b (clear_n_call n) = let r = clear_buffer_n cap b n in ((r.0, []), r.1)
  step b clear_call = let r = clear b in ((r.0, []), r.1)

  -- The queue of at most `cap - 1` bytes that a CycleBuffer stands for.
  unfoldable pub queue_step : Bytes → Call → (Code × Bytes) × Bytes
  queue_step q (append_call bytes) =
      if ltb (length q + length bytes) cap then ((ok, []), q ++ bytes) else ((failed, []), q)
  queue_step q (read_call n) = if leb n (length q) then ((ok, take n q), q) else ((failed, []), q)
  queue_step q (clear_n_call n) = ((ok, []), drop n q)
  queue_step q clear_call = ((ok, []), [])

  pub run : CycleBuffer → List Call → List (Code × Bytes)
  run b [] = []
  run b (c ∷ cs) = let r = step b c in r.0 ∷ run r.1 cs

  unfoldable pub queue_run : Bytes → List Call → List (Code × Bytes)
  queue_run q [] = []
  queue_run q (c ∷ cs) = let r = queue_step q c in r.0 ∷ queue_run r.1 cs

  pub step-queue_step :
      (b : CycleBuffer) (c : Call)
      → IsValid cap b
      → ((step b c).0 ≡ (queue_step (contents cap b) c).0)
        × (contents cap (step b c).1 ≡ (queue_step (contents cap b) c).1)
        × IsValid cap (step b c).1
  unfolding step queue_step
  step-queue_step b (append_call bytes) v =
      let (c, e, _, v') = append_queue bytes v in
      elim (Bool-cases (ltb (length (contents cap b) + length bytes) cap)) [
        | inl room ↦ rw room (ap (λ x. (x, [])) (c ∙ rw room refl), e ∙ rw room refl, v')
        | inr full ↦ rw full (ap (λ x. (x, [])) (c ∙ rw full refl), e ∙ rw full refl, v')
      ]
  step-queue_step b (read_call n) v =
      let e = read_buffer_n_queue [] n v in
      elim (Bool-cases (leb n (length (contents cap b)))) [
        | inl held ↦ rw held (e ∙ rw held refl, refl, v)
        | inr short ↦ rw short (e ∙ rw short refl, refl, v)
      ]
  step-queue_step b (clear_n_call n) v =
      let (c, e, v') = clear_buffer_n_queue n v in (ap (λ x. (x, [])) c, e, v')
  step-queue_step b clear_call v =
      (ap (λ x. (x, [])) (clear_code b), contents-clear v, clear-IsValid v)

  run-queue_run :
      (b : CycleBuffer) (cs : List Call) → IsValid cap b → run b cs ≡ queue_run (contents cap b) cs
  unfolding run queue_run
  run-queue_run b [] v = refl
  run-queue_run b (c ∷ cs) v =
      let (o, e, v') = step-queue_step b c v in rw (run-queue_run (step b c).1 cs v', o, e) refl

pub contents-create : (storage : Bytes) → contents (length storage) (create storage) ≡ []
unfolding create
contents-create storage = length_zero _ (length-range storage 0 0)
  where
    length_zero : (xs : Bytes) → length xs ≡ 0 → xs ≡ []
    length_zero [] e = refl
    length_zero (x ∷ xs) e = absurd (omega arith)

-- From a new buffer on, any sequence of calls of `append`, `readBufferN` (into an empty string),
-- `clearBufferN` and `clear` returns what a queue of bytes returns that starts empty and holds one
-- byte less than the array, whatever the array starts with (the array is not empty and has 2 ^ 63
-- bytes at most).
pub run-create :
    (storage : Bytes) (cs : List Call)
    → 0 < length storage
    → length storage ≤ 2 ^ 63
    → run (length storage) (create storage) cs ≡ queue_run (length storage) [] cs
run-create storage cs h k =
    let v = create-IsValid storage h k in
    run-queue_run (length storage) (create storage) cs v
    ∙ ap (λ q. queue_run (length storage) q cs) (contents-create storage)
