-- ===== src/SocketAddr/Text.antt =====
-- uv/SocketAddr.cpp: the text of an address tells which address it is.
use uv_cpp.Prelude.{
  ℕ, ◌<◌, ◌^◌, ◌≡◌, ◌≢◌, refl, sym, ap, ◌∙◌, Bytes, [], ◌∷◌, ◌++◌, some, arith, Lacks, inl, inr,
}
use uv_cpp.Http.Number.{pos, to_string, stoi, stoi-to_string, to_string-Lacks}
use uv_cpp.SocketAddr.{Inet, Ipv, ipv4, ipv6, Sockaddr, addr_to_str, get_ip_and_port}

-- Bytes without the separator cannot have it behind others.
no_sep : (c : ℕ) (a x : Bytes) (y : Bytes) → Lacks c y → y ≢ a ++ c ∷ x
no_sep c [] x [] l e = absurd cc
no_sep c [] x (d ∷ y) l e = l.0 (cc e)
no_sep c (b ∷ a) x [] l e = absurd cc
no_sep c (b ∷ a) x (d ∷ y) l e = no_sep c a x y l.1 (cc e)

last_sep :
    (c : ℕ) (a b x y : Bytes) → Lacks c x → Lacks c y → a ++ c ∷ x ≡ b ++ c ∷ y → (a ≡ b) × (x ≡ y)
last_sep c [] [] x y lx ly e = (refl, cc e)
last_sep c [] (d ∷ b) x y lx ly e = absurd (no_sep c b y x lx (cc e))
last_sep c (d ∷ a) [] x y lx ly e = absurd (no_sep c a x y ly (cc (sym e)))
last_sep c (d ∷ a) (f ∷ b) x y lx ly e =
    let same : d ≡ f = cc e in
    let (h, t) = last_sep c a b x y lx ly (cc e) in (ap (λ z. z ∷ a) same ∙ ap (λ z. f ∷ z) h, t)

to_string_injective :
    (m n : ℕ) → m < 2 ^ 16 → n < 2 ^ 16 → to_string (pos m) ≡ to_string (pos n) → m ≡ n
to_string_injective m n hm hn e =
    let s : some (pos m) ≡ some (pos n) =
      sym (stoi-to_string m (omega arith)) ∙ (ap (stoi 10) e ∙ stoi-to_string n (omega arith)) in
    ground (arith, s)

text_injective :
    (a b : Bytes) (m n : ℕ)
    → m < 2 ^ 16
    → n < 2 ^ 16
    → a ++ b':' ∷ to_string (pos m) ≡ b ++ b':' ∷ to_string (pos n)
    → (a ≡ b) × (m ≡ n)
text_injective a b m n hm hn e =
    let (same, digits) =
      last_sep b':' a b (to_string (pos m)) (to_string (pos n)) (to_string-Lacks m)
        (to_string-Lacks n) e in
    (same, to_string_injective m n hm hn digits)

-- Two peers of the same kind that `AddrToStr` gives one text have the same IP text and the same
-- port.
pub addr_to_str_injective :
    (I : Inet) (p q : Sockaddr I) (ipv : Ipv) (text : Bytes)
    → addr_to_str I p ipv ≡ some text
    → addr_to_str I q ipv ≡ some text
    → get_ip_and_port I p ipv ≡ get_ip_and_port I q ipv
unfolding addr_to_str get_ip_and_port
addr_to_str_injective I (inl a) (inl b) ipv4 text h k =
    let (e, f) =
      text_injective (I.ntoa a) (I.ntoa b) (I.port4 a) (I.port4 b) (I.port4_small a)
        (I.port4_small b) (cc (h, k)) in
    rw (e, f) refl
addr_to_str_injective I (inr a) (inr b) ipv6 text h k =
    let (e, f) =
      text_injective (I.ntop a) (I.ntop b) (I.port6 a) (I.port6 b) (I.port6_small a)
        (I.port6_small b) (cc (h, k)) in
    rw (e, f) refl
addr_to_str_injective I (inl a) (inr b) ipv4 text h k = absurd cc
addr_to_str_injective I (inl a) (inr b) ipv6 text h k = absurd cc
addr_to_str_injective I (inr a) (inl b) ipv4 text h k = absurd cc
addr_to_str_injective I (inr a) (inl b) ipv6 text h k = absurd cc
addr_to_str_injective I (inl a) (inl b) ipv6 text h k = absurd cc
addr_to_str_injective I (inr a) (inr b) ipv4 text h k = absurd cc
