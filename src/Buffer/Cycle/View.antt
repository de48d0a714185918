-- ===== src/Buffer/Cycle/View.antt =====
-- uv/CycleBuffer.cpp: buffers up to where in the array their bytes stand. The indices and the bytes
-- behind them are forgotten by a quotient.
use mathlib.Core.Equiv.{IsEquiv, iso_to_equiv, Iso}
use mathlib.Core.HLevel.{Σ_prop_path, Σ_set, ×_prop, prop→set, hedberg}
use mathlib.Core.List.{List-discrete}
use mathlib.Core.Path.{subst}
use mathlib.Core.Quot
use mathlib.Core.Quot.{Quot, Quot-set}
use native.Mathlib.Bridge.{le_prop}
use native.Mathlib.Decide.{ℕ_discrete}
use uv_cpp.Prelude.{
  ℕ, true, ◌+◌, ◌^◌, ◌≤◌, ◌<◌, ◌≡◌, sym, ap, ◌∙◌, Bytes, [], ◌++◌, length, replicate,
  length-replicate, ltb, lt→ltb, if◌then◌else◌, Code, arith,
}
use uv_cpp.Buffer.Cycle.{CycleBuffer, create, append}
use uv_cpp.Buffer.Cycle.Inv.{IsValid, create-IsValid}
use uv_cpp.Buffer.Cycle.Contents.{contents, length-contents}
use uv_cpp.Buffer.Cycle.Append.{append_queue}
use uv_cpp.Buffer.Cycle.Trace.{Call, step, queue_step, step-queue_step, contents-create}

Bytes-set : IsSet Bytes
Bytes-set = hedberg (List-discrete ℕ_discrete)

module _ (cap : ℕ) where
  -- A buffer that is well formed.
  abbrev pub State : Type 0
  State = (b : CycleBuffer) × IsValid cap b

  abbrev pub SameContents : State → State → Type 0
  SameContents s t = contents cap s.0 ≡ contents cap t.0

  abbrev pub View : Type 0
  View = Quot SameContents

  -- A list of bytes that leaves one place of the array free.
  abbrev pub Queue : Type 0
  Queue = (q : Bytes) × (length q < cap)

  Queue-ext : (p q : Queue) → p.0 ≡ q.0 → p ≡ q
  Queue-ext p q e = Σ_prop_path (λ n. le_prop) e

  Queue-set : IsSet Queue
  Queue-set = Σ_set Bytes-set (λ q. prop→set le_prop)

  contents-lt : (s : State) → length (contents cap s.0) < cap
  contents-lt (b, v) = ground (arith, length-contents cap b, v)

  pub queue_of : View → Queue
  queue_of = Quot.lift Queue-set (λ s. (contents cap s.0, contents-lt s)) (λ s t h. Queue-ext _ _ h)

  -- The code and the bytes that a call gives back, and the buffer after it.
  step_state : State → Call → (Code × Bytes) × State
  step_state (b, v) c = ((step cap b c).0, ((step cap b c).1, (step-queue_step cap b c v).2))

  answers-same :
      (s t : State) (c : Call)
      → SameContents s t
      → ((step_state s c).0 ≡ (step_state t c).0)
        × SameContents (step_state s c).1 (step_state t c).1
  unfolding step_state
  answers-same (b, v) (d, w) c h =
      let (o, e, _) = step-queue_step cap b c v in
      let (o', e', _) = step-queue_step cap d c w in
      (
        o ∙ (ap (λ q. (queue_step cap q c).0) h ∙ sym o'),
        e ∙ (ap (λ q. (queue_step cap q c).1) h ∙ sym e'),
      )

  Outcome-set : IsSet ((Code × Bytes) × View)
  Outcome-set = Σ_set (Σ_set (hlevel) (λ c. Bytes-set)) (λ o. Quot-set)

  -- A call on a buffer of which only the contents are known.
  pub view_step : View → Call → (Code × Bytes) × View
  unfolding step_state
  view_step q c =
      Quot.lift Outcome-set (λ s. ((step_state s c).0, Quot.mk (step_state s c).1))
        (λ s t h.
          let (o, e) = answers-same s t c h in
          λ i. (o i, Quot.sound {a = (step_state s c).1} {b = (step_state t c).1} e i))
        q

  call_agrees :
      (v : View) (c : Call)
      → ((view_step v c).0 ≡ (queue_step cap (queue_of v).0 c).0)
        × ((queue_of (view_step v c).1).0 ≡ (queue_step cap (queue_of v).0 c).1)
  unfolding view_step queue_of
  call_agrees v c =
      Quot.ind
        {β = λ v.
          ((view_step v c).0 ≡ (queue_step cap (queue_of v).0 c).0)
          × ((queue_of (view_step v c).1).0 ≡ (queue_step cap (queue_of v).0 c).1)}
        (λ v. ×_prop (Σ_set (hlevel) (λ c. Bytes-set) _ _) (Bytes-set _ _))
        (λ s. let (o, e, _) = step-queue_step cap s.0 c s.1 in (o, e)) v

  module _ (not_empty : 0 < cap) (small : cap ≤ 2 ^ 63) where
    abbrev blank : CycleBuffer
    blank = create (replicate cap 0)

    blank-IsValid : IsValid cap blank
    blank-IsValid =
        let size = length-replicate {A = ℕ} cap 0 in
        subst (λ n. IsValid n blank) size
          (create-IsValid (replicate cap 0) (omega (arith, size)) (omega (arith, size)))

    contents-blank : contents cap blank ≡ []
    contents-blank =
        subst (λ n. contents n blank ≡ []) (length-replicate {A = ℕ} cap 0)
          (contents-create (replicate cap 0))

    -- The bytes of a queue, put into a new buffer.
    filled : (q : Queue) → (s : State) × (contents cap s.0 ≡ q.0)
    filled (q, few) =
        let (_, e, _, v) = append_queue q blank-IsValid in
        let room : ltb (length (contents cap blank) + length q) cap ≡ true =
          ap (λ x. ltb (length x + length q) cap) contents-blank
          ∙ lt→ltb (0 + length q) cap (omega arith) in
        (
          ((append cap blank q).1, v),
          e
              ∙ (ap (λ x. if x then contents cap blank ++ q else contents cap blank) room
                  ∙ ap (λ x. x ++ q) contents-blank),
        )

    -- Well-formed CycleBuffers on an array of `cap` bytes (not empty, 2 ^ 63 at most), taken as
    -- one when they hold the same bytes, are equivalent to the lists of fewer than `cap` bytes;
    -- and every call of `append`, `readBufferN` (into an empty string), `clearBufferN` or `clear`
    -- gives back what the bounded queue gives back, and leaves the bytes that it leaves.
    pub queue_of-IsEquiv :
        IsEquiv queue_of
        × ((v : View) (c : Call)
            → ((view_step v c).0 ≡ (queue_step cap (queue_of v).0 c).0)
              × ((queue_of (view_step v c).1).0 ≡ (queue_step cap (queue_of v).0 c).1))
    unfolding queue_of
    queue_of-IsEquiv = ((iso_to_equiv iso).1, call_agrees)
      where
        iso : Iso View Queue
        iso = record {
          fun = queue_of;
          inv = λ q. Quot.mk (filled q).0;
          rinv = λ q. Queue-ext _ q (filled q).1;
          linv =
              Quot.ind (λ v. Quot-set _ _)
                (λ s. Quot.sound (filled (contents cap s.0, contents-lt s)).1);
        }
