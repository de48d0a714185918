-- ===== src/Http/Response/Chunked.antt =====
-- uv/http/Response.cpp: the loop over the chunks of `isCompletedChunked`.
use uv_cpp.Prelude.{
  ℕ, zero, suc, ◌+◌, ◌-◌, ◌^◌, ◌≤◌, ◌<◌, ◌≡◌, ◌≢◌, refl, Bytes, [], ◌∷◌, ◌++◌, length, drop, Option,
  none, some, arith, Lacks, All-take, All-drop, add64,
}
use uv_cpp.Http.Text.{find, sub, crlf}
use uv_cpp.Http.Text.Find.{find_bounds}
use uv_cpp.Http.Number.{ℤ, to_u64, stoi, stoi_bound}
use uv_cpp.Http.Response.{chunks}

-- One round: if it does not end the loop, the next begins further on.
module _ (fuel : ℕ) (content : Bytes) (p1 : ℕ) (temp : Bytes) (h : Lacks b'-' content)
    (small : length content < 2 ^ 63)
    (later : (p : ℕ) (t : Bytes)
      → p1 < p
      → p ≤ length content
      → chunks fuel content p t ≢ none) where
  size_line-Lacks : (n : ℕ) → Lacks b'-' (sub content p1 n)
  size_line-Lacks n = All-take _ n (drop p1 content) (All-drop _ p1 content h)

  chunks_number :
      (p2 : ℕ) (o : Option ℤ)
      → find crlf content (p1 + 1) ≡ some p2
      → (p1 + 1 ≤ p2) × (p2 < length content)
      → stoi 16 (sub content p1 (p2 - p1)) ≡ o
      → chunks (suc fuel) content p1 temp ≢ none
  unfolding chunks
  chunks_number p2 none f b e = rw (f, chunks) (rw (e, chunks) (λ x. cc))
  chunks_number p2 (some n) f b e =
      let bound = stoi_bound 16 (sub content p1 (p2 - p1)) n (size_line-Lacks (p2 - p1)) e in
      let next = add64 (p2 + 2) (to_u64 n) in
      rw (f, chunks)
        (rw (e, chunks)
          (ground (arith, bound, later next (temp ++ sub content (p2 + 2) (to_u64 n)))))

  chunks_round :
      (o : Option ℕ) → find crlf content (p1 + 1) ≡ o → chunks (suc fuel) content p1 temp ≢ none
  unfolding chunks
  chunks_round none e = rw (e, chunks) (λ x. cc)
  chunks_round (some p2) e =
      chunks_number p2 _ e (find_bounds b'\r' (b'\n' ∷ []) content (p1 + 1) p2 e) refl

-- On content without a minus sign and shorter than 2 ^ 63 bytes, from any position inside it, the
-- loop over the chunks ends within fuel for one round more than there are bytes from that position
-- on.
pub chunks-ne-none :
    (fuel : ℕ) (content : Bytes) (p1 : ℕ) (temp : Bytes)
    → Lacks b'-' content
    → length content < 2 ^ 63
    → length content < p1 + fuel
    → p1 ≤ length content
    → chunks fuel content p1 temp ≢ none
chunks-ne-none zero content p1 temp h small lt le = absurd (omega arith)
chunks-ne-none (suc fuel) content p1 temp h small lt le =
    chunks_round fuel content p1 temp h small
      (λ p t far le'. chunks-ne-none fuel content p t h small (omega arith) le') _ refl
