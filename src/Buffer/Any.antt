-- ===== src/Buffer/Any.antt =====
-- uv/include/PacketBuffer.hpp: calls of a buffer's virtual functions through a `PacketBufferPtr`, for a
-- buffer of either kind, which fills the interface as well. A law holds since it does of each kind.
use uv_cpp.Prelude.{
  ℕ, ◌≤◌, ◌<◌, ◌≡◌, ap, ◌⊎◌, inl, inr, Bytes, [], ◌++◌, length, take, drop, Code, ok, failed, ◌+◌,
  ◌∙◌, length-append, lt→ltb, if◌then◌else◌, arith,
}
use uv_cpp.Buffer.Interface.{PacketBuffer}
use uv_cpp.Buffer.Config.{AnyBuffer, cycle, list}
use uv_cpp.Buffer.Cycle.{CycleBuffer}
use uv_cpp.Buffer.Cycle.Append.{append_queue}
use uv_cpp.Buffer.ListBuffer
use uv_cpp.Buffer.ListBuffer.{ListBuffer}
use uv_cpp.Buffer.Instances.{cycle_buffer, list_buffer}

-- The result of an operation, with the buffer as one of either kind.
abbrev pub as_cycle : Code × CycleBuffer → Code × AnyBuffer
as_cycle r = (r.0, cycle r.1)

abbrev pub as_list : Code × ListBuffer → Code × AnyBuffer
as_list r = (r.0, list r.1)

module _ (cap : ℕ) where
  abbrev pub C : PacketBuffer
  C = cycle_buffer cap

  abbrev pub L : PacketBuffer
  L = list_buffer

  unfoldable pub append : AnyBuffer → Bytes → Code × AnyBuffer
  append (cycle b) bytes = as_cycle (C.append b bytes)
  append (list b) bytes = as_list (L.append b bytes)

  pub read_buffer_n : AnyBuffer → Bytes → ℕ → Code × Bytes
  read_buffer_n (cycle b) = C.read_buffer_n b
  read_buffer_n (list b) = L.read_buffer_n b

  pub clear_buffer_n : AnyBuffer → ℕ → Code × AnyBuffer
  clear_buffer_n (cycle b) n = as_cycle (C.clear_buffer_n b n)
  clear_buffer_n (list b) n = as_list (L.clear_buffer_n b n)

  unfoldable pub clear : AnyBuffer → Code × AnyBuffer
  clear (cycle b) = as_cycle (C.clear b)
  clear (list b) = as_list (L.clear b)

  pub read_size : AnyBuffer → ℕ
  read_size (cycle b) = C.read_size b
  read_size (list b) = L.read_size b

  abbrev pub IsValid : AnyBuffer → Type 0
  IsValid (cycle b) = C.IsValid b
  IsValid (list b) = L.IsValid b

  abbrev pub contents : AnyBuffer → Bytes
  contents (cycle b) = C.contents b
  contents (list b) = L.contents b

  pub append-IsValid : (b : AnyBuffer) (bytes : Bytes) → IsValid b → IsValid (append b bytes).1
  unfolding append
  append-IsValid (cycle b) bytes v = C.append-IsValid bytes v
  append-IsValid (list b) bytes v = tt

  pub clear_buffer_n-IsValid : (b : AnyBuffer) (n : ℕ) → IsValid b → IsValid (clear_buffer_n b n).1
  unfolding clear_buffer_n
  clear_buffer_n-IsValid (cycle b) n v = C.clear_buffer_n-IsValid n v
  clear_buffer_n-IsValid (list b) n v = tt

  pub clear-IsValid : (b : AnyBuffer) → IsValid b → IsValid (clear b).1
  unfolding clear
  clear-IsValid (cycle b) v = C.clear-IsValid v
  clear-IsValid (list b) v = tt

  pub read_size-contents : (b : AnyBuffer) → IsValid b → read_size b ≡ length (contents b)
  unfolding read_size
  read_size-contents (cycle b) v = C.read_size-contents v
  read_size-contents (list b) v = L.read_size-contents {b = b} tt

  pub append_cases :
      (b : AnyBuffer) (bytes : Bytes)
      → IsValid b
      → (((append b bytes).0 ≡ ok) × (contents (append b bytes).1 ≡ contents b ++ bytes))
        ⊎ (append b bytes ≡ (failed, b))
  unfolding append
  append_cases (cycle b) bytes v = elim (C.append_cases bytes v) [
    | inl took ↦ inl took
    | inr full ↦ inr (ap as_cycle full)
  ]
  append_cases (list b) bytes v = elim (L.append_cases {b = b} bytes tt) [
    | inl took ↦ inl took
    | inr full ↦ inr (ap as_list full)
  ]

  pub contents-append :
      (b : AnyBuffer) (bytes : Bytes)
      → IsValid b
      → length (contents b ++ bytes) < cap
      → contents (append b bytes).1 ≡ contents b ++ bytes
  unfolding append
  contents-append (cycle b) bytes v room =
      let n = length-append (C.contents b) bytes in
      let fits = lt→ltb (length (C.contents b) + length bytes) cap (omega (arith, n)) in
      let (_, e, _, _) = append_queue {cap = cap} {b = b} bytes v in
      e ∙ ap (λ x. if x then C.contents b ++ bytes else C.contents b) fits
  contents-append (list b) bytes v room = ap (λ r. r.1.buffer) (ListBuffer.append_lem b bytes)

  pub read_buffer_n_ok :
      (b : AnyBuffer) (out : Bytes) (n : ℕ)
      → IsValid b
      → n ≤ length (contents b)
      → read_buffer_n b out n ≡ (ok, out ++ take n (contents b))
  unfolding read_buffer_n
  read_buffer_n_ok (cycle b) out n v h = C.read_buffer_n_ok out n v h
  read_buffer_n_ok (list b) out n v h = L.read_buffer_n_ok {b = b} out n tt h

  pub read_buffer_n_failed :
      (b : AnyBuffer) (out : Bytes) (n : ℕ)
      → IsValid b
      → length (contents b) < n
      → read_buffer_n b out n ≡ (failed, out)
  unfolding read_buffer_n
  read_buffer_n_failed (cycle b) out n v h = C.read_buffer_n_failed out n v h
  read_buffer_n_failed (list b) out n v h = L.read_buffer_n_failed {b = b} out n tt h

  pub contents-clear_buffer_n :
      (b : AnyBuffer) (n : ℕ) → IsValid b → contents (clear_buffer_n b n).1 ≡ drop n (contents b)
  unfolding clear_buffer_n
  contents-clear_buffer_n (cycle b) n v = C.contents-clear_buffer_n n v
  contents-clear_buffer_n (list b) n v = L.contents-clear_buffer_n {b = b} n tt

  pub contents-clear : (b : AnyBuffer) → IsValid b → contents (clear b).1 ≡ []
  unfolding clear
  contents-clear (cycle b) v = C.contents-clear v
  contents-clear (list b) v = L.contents-clear {b = b} tt

  -- A buffer of either kind, where a CycleBuffer has an array of `cap` bytes.
  abbrev pub any_buffer : PacketBuffer
  any_buffer = record {
    Buffer = AnyBuffer;
    append = append;
    read_buffer_n = read_buffer_n;
    clear_buffer_n = clear_buffer_n;
    clear = clear;
    read_size = read_size;
    IsValid = IsValid;
    contents = contents;
    append-IsValid = λ {b}. append-IsValid b;
    clear_buffer_n-IsValid = λ {b}. clear_buffer_n-IsValid b;
    clear-IsValid = λ {b}. clear-IsValid b;
    read_size-contents = λ {b}. read_size-contents b;
    append_cases = λ {b}. append_cases b;
    read_buffer_n_ok = λ {b}. read_buffer_n_ok b;
    read_buffer_n_failed = λ {b}. read_buffer_n_failed b;
    contents-clear_buffer_n = λ {b}. contents-clear_buffer_n b;
    contents-clear = λ {b}. contents-clear b;
  }
