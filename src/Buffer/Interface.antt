-- ===== src/Buffer/Interface.antt =====
-- The abstract class PacketBuffer of uv/include/PacketBuffer.hpp: the operations that a client
-- may call, and what it may rely on. `contents` is the abstract view: the bytes held, oldest first.
use uv_cpp.Prelude.{ℕ, ◌≤◌, ◌<◌, ◌≡◌, ◌⊎◌, Bytes, [], ◌++◌, length, take, drop, Code, ok, failed}

pub record PacketBuffer : Type 1 where
  pub Buffer : Type 0
  pub append : Buffer → Bytes → Code × Buffer
  pub read_buffer_n : Buffer → Bytes → ℕ → Code × Bytes
  pub clear_buffer_n : Buffer → ℕ → Code × Buffer
  pub clear : Buffer → Code × Buffer
  pub read_size : Buffer → ℕ
  pub IsValid : Buffer → Type 0
  pub contents : Buffer → Bytes
  pub append-IsValid : {b : Buffer} (bytes : Bytes) → IsValid b → IsValid (append b bytes).1
  pub clear_buffer_n-IsValid : {b : Buffer} (n : ℕ) → IsValid b → IsValid (clear_buffer_n b n).1
  pub clear-IsValid : {b : Buffer} → IsValid b → IsValid (clear b).1
  pub read_size-contents : {b : Buffer} → IsValid b → read_size b ≡ length (contents b)
  -- An append takes all the bytes, or none and says so.
  pub append_cases :
      {b : Buffer} (bytes : Bytes)
      → IsValid b
      → (((append b bytes).0 ≡ ok) × (contents (append b bytes).1 ≡ contents b ++ bytes))
        ⊎ (append b bytes ≡ (failed, b))
  pub read_buffer_n_ok :
      {b : Buffer} (out : Bytes) (n : ℕ)
      → IsValid b
      → n ≤ length (contents b)
      → read_buffer_n b out n ≡ (ok, out ++ take n (contents b))
  pub read_buffer_n_failed :
      {b : Buffer} (out : Bytes) (n : ℕ)
      → IsValid b
      → length (contents b) < n
      → read_buffer_n b out n ≡ (failed, out)
  pub contents-clear_buffer_n :
      {b : Buffer} (n : ℕ) → IsValid b → contents (clear_buffer_n b n).1 ≡ drop n (contents b)
  pub contents-clear : {b : Buffer} → IsValid b → contents (clear b).1 ≡ []
