-- ===== src/Buffer/ListBuffer.antt =====
-- uv/ListBuffer.cpp: a byte queue over `std::list`, with no bound. The loops count to a `uint64_t`
-- or stop at the end of the list.
use uv_cpp.Prelude.{
  ℕ, zero, suc, ◌≡◌, refl, ◌∙◌, Bytes, [], ◌∷◌, ◌++◌, length, take, drop, ltb, if◌then◌else◌, Code,
  ok, failed, append-nil, append_assoc, sym,
}

pub record ListBuffer : Type 0 where
  pub buffer : Bytes

abbrev pub new_list_buffer : ListBuffer
new_list_buffer = record { buffer = [] }

push_back : Bytes → Bytes → Bytes
push_back buffer [] = buffer
push_back buffer (x ∷ xs) = push_back (buffer ++ x ∷ []) xs

pub append : ListBuffer → Bytes → Code × ListBuffer
append b bytes = (ok, record { buffer = push_back b.buffer bytes })

-- The iterator is the rest of the list; the guard before the loop keeps it off the end.
read_loop : ℕ → Bytes → Bytes → Bytes
read_loop zero it out = out
read_loop (suc n) [] out = out
read_loop (suc n) (x ∷ it) out = read_loop n it (out ++ x ∷ [])

pub read_size : ListBuffer → ℕ
read_size b = length b.buffer

pub read_buffer_n : ListBuffer → Bytes → ℕ → Code × Bytes
read_buffer_n b out n =
    if ltb (length b.buffer) n then (failed, out) else (ok, read_loop n b.buffer out)

pop_loop : ℕ → Bytes → Bytes
pop_loop zero buffer = buffer
pop_loop (suc n) [] = []
pop_loop (suc n) (x ∷ buffer) = pop_loop n buffer

pub clear_buffer_n : ListBuffer → ℕ → Code × ListBuffer
clear_buffer_n b n = (ok, record { buffer = pop_loop n b.buffer })

pub clear : ListBuffer → Code × ListBuffer
clear b = (ok, record { buffer = [] })

push_back-append : (buffer bytes : Bytes) → push_back buffer bytes ≡ buffer ++ bytes
unfolding push_back
push_back-append buffer [] = sym (append-nil buffer)
push_back-append buffer (x ∷ xs) =
    push_back-append (buffer ++ x ∷ []) xs ∙ append_assoc buffer (x ∷ []) xs

read_loop-take : (n : ℕ) (it out : Bytes) → read_loop n it out ≡ out ++ take n it
unfolding read_loop
read_loop-take zero it out = sym (append-nil out)
read_loop-take (suc n) [] out = sym (append-nil out)
read_loop-take (suc n) (x ∷ it) out =
    read_loop-take n it (out ++ x ∷ []) ∙ append_assoc out (x ∷ []) (take n it)

pop_loop-drop : (n : ℕ) (buffer : Bytes) → pop_loop n buffer ≡ drop n buffer
unfolding pop_loop
pop_loop-drop zero buffer = refl
pop_loop-drop (suc n) [] = refl
pop_loop-drop (suc n) (x ∷ buffer) = pop_loop-drop n buffer

-- `append` never refuses.
pub append_lem :
    (b : ListBuffer) (bytes : Bytes) → append b bytes ≡ (ok, record { buffer = b.buffer ++ bytes })
unfolding append
append_lem b bytes = rw (push_back-append b.buffer bytes)

pub read_buffer_n_lem :
    (b : ListBuffer) (out : Bytes) (n : ℕ)
    → read_buffer_n b out n
      ≡ (if ltb (length b.buffer) n then (failed, out) else (ok, out ++ take n b.buffer))
unfolding read_buffer_n
read_buffer_n_lem b out n = rw (read_loop-take n b.buffer out)

pub clear_buffer_n_lem :
    (b : ListBuffer) (n : ℕ) → (clear_buffer_n b n).1 ≡ record { buffer = drop n b.buffer }
unfolding clear_buffer_n
clear_buffer_n_lem b n = rw (pop_loop-drop n b.buffer)

pub read_size_lem : (b : ListBuffer) → read_size b ≡ length b.buffer
unfolding read_size
read_size_lem b = refl

pub clear_lem : (b : ListBuffer) → (clear b).1.buffer ≡ []
unfolding clear
clear_lem b = refl
