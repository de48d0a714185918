-- ===== src/Buffer/Instances.antt =====
-- uv/CycleBuffer.cpp and uv/ListBuffer.cpp as instances of the interface PacketBuffer.
use uv_cpp.Prelude.{
  ℕ, ◌≤◌, ◌<◌, ◌≡◌, ap, sym, ◌∙◌, ◌⊎◌, inl, inr, Bytes, ◌++◌, length, take, ltb, ok, failed,
  Bool-cases, arith,
}
use uv_cpp.Buffer.Interface.{PacketBuffer}
use uv_cpp.Buffer.Cycle
use uv_cpp.Buffer.Cycle.{CycleBuffer}
use uv_cpp.Buffer.Cycle.Inv
use uv_cpp.Buffer.Cycle.Contents
use uv_cpp.Buffer.Cycle.Append
use uv_cpp.Buffer.Cycle.Read
use uv_cpp.Buffer.ListBuffer
use uv_cpp.Buffer.ListBuffer.{ListBuffer}

module _ (cap : ℕ) where
  pub append_cases :
      {b : CycleBuffer} (bytes : Bytes)
      → Inv.IsValid cap b
      → (((Cycle.append cap b bytes).0 ≡ ok)
          × (Contents.contents cap (Cycle.append cap b bytes).1 ≡ Contents.contents cap b ++ bytes))
        ⊎ (Cycle.append cap b bytes ≡ (failed, b))
  append_cases {b} bytes v = elim (Bool-cases (ltb (Inv.free cap b) (length bytes))) [
    | inl full ↦ inr (Inv.append_failed bytes v (ground arith))
    | inr fits ↦
        let h : length bytes ≤ Inv.free cap b = ground arith in
        inl ((Inv.append_fields bytes v h).0, Append.contents-append bytes v h)
  ]

  pub read_buffer_n_ok :
      {b : CycleBuffer} (out : Bytes) (n : ℕ)
      → Inv.IsValid cap b
      → n ≤ length (Contents.contents cap b)
      → Cycle.read_buffer_n cap b out n ≡ (ok, out ++ take n (Contents.contents cap b))
  read_buffer_n_ok {b} out n v h =
      ground (arith, Read.read_buffer_n_lem v out n, Contents.length-contents cap b)

  pub read_buffer_n_failed :
      {b : CycleBuffer} (out : Bytes) (n : ℕ)
      → Inv.IsValid cap b
      → length (Contents.contents cap b) < n
      → Cycle.read_buffer_n cap b out n ≡ (failed, out)
  read_buffer_n_failed {b} out n v h =
      ground (arith, Read.read_buffer_n_lem v out n, Contents.length-contents cap b)

  -- CycleBuffer with an array of `cap` bytes.
  abbrev pub cycle_buffer : PacketBuffer
  cycle_buffer = record {
    Buffer = CycleBuffer;
    append = Cycle.append cap;
    read_buffer_n = Cycle.read_buffer_n cap;
    clear_buffer_n = Cycle.clear_buffer_n cap;
    clear = Cycle.clear;
    read_size = Cycle.read_size cap;
    IsValid = Inv.IsValid cap;
    contents = Contents.contents cap;
    append-IsValid = Inv.append-IsValid;
    clear_buffer_n-IsValid = Inv.clear_buffer_n-IsValid;
    clear-IsValid = Inv.clear-IsValid;
    read_size-contents = λ {b} v. Inv.read_size-held v ∙ sym (Contents.length-contents cap b);
    append_cases = append_cases;
    read_buffer_n_ok = read_buffer_n_ok;
    read_buffer_n_failed = read_buffer_n_failed;
    contents-clear_buffer_n = λ n v. Read.contents-clear_buffer_n v n;
    contents-clear = Read.contents-clear;
  }

pub list_read_ok :
    (b : ListBuffer) (out : Bytes) (n : ℕ)
    → Unit {0}
    → n ≤ length b.buffer
    → ListBuffer.read_buffer_n b out n ≡ (ok, out ++ take n b.buffer)
list_read_ok b out n v h = ground (arith, ListBuffer.read_buffer_n_lem b out n)

pub list_read_failed :
    (b : ListBuffer) (out : Bytes) (n : ℕ)
    → Unit {0}
    → length b.buffer < n
    → ListBuffer.read_buffer_n b out n ≡ (failed, out)
list_read_failed b out n v h = ground (arith, ListBuffer.read_buffer_n_lem b out n)

abbrev pub list_buffer : PacketBuffer
list_buffer = record {
  Buffer = ListBuffer;
  append = ListBuffer.append;
  read_buffer_n = ListBuffer.read_buffer_n;
  clear_buffer_n = ListBuffer.clear_buffer_n;
  clear = ListBuffer.clear;
  read_size = ListBuffer.read_size;
  IsValid = λ b. Unit {0};
  contents = λ b. b.buffer;
  append-IsValid = λ bytes v. tt;
  clear_buffer_n-IsValid = λ n v. tt;
  clear-IsValid = λ v. tt;
  read_size-contents = λ {b} v. ListBuffer.read_size_lem b;
  append_cases = λ {b} bytes v.
      let e = ListBuffer.append_lem b bytes in inl (ap (λ r. r.0) e, ap (λ r. r.1.buffer) e);
  read_buffer_n_ok = λ {b}. list_read_ok b;
  read_buffer_n_failed = λ {b}. list_read_failed b;
  contents-clear_buffer_n = λ {b} n v. ap (λ r. r.buffer) (ListBuffer.clear_buffer_n_lem b n);
  contents-clear = λ {b} v. ListBuffer.clear_lem b;
}
