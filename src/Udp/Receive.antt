-- ===== src/Udp/Receive.antt =====
-- uv/Udp.cpp: the memory of a datagram is given back.
use uv_cpp.Prelude.{ℕ, ◌≡◌, Bytes, List, some, sum, arith}
use uv_cpp.Http.Number.{ℤ, pos, negsuc}
use uv_cpp.SocketAddr.{Inet, Sockaddr}
use uv_cpp.Udp.{Udp, Action, delete_buffer, delete_request, sent, on_message, on_message_receive}

abbrev pub frees : {I : Inet} → Action I → ℕ
frees delete_buffer = 1
frees delete_request = 1
frees _ = 0

-- Whatever libuv reports, the memory of what was read is freed once, unless the call has a fault.
on_message_receive-frees :
    {H : Type 0} (I : Inet) (u : Udp H) (n : ℤ) (from : Sockaddr I) (buf : Bytes)
    (xs : List (Action I))
    → on_message_receive I u n from buf ≡ some xs
    → sum frees xs ≡ 1
unfolding on_message_receive on_message
on_message_receive-frees I u (negsuc n) from buf xs e = ground (arith, e)
on_message_receive-frees I u (pos n) from buf xs e = ground (arith, e)

-- The memory of a send is freed once, whatever its status is.
sent-frees : (I : Inet) (status : ℤ) → sum frees (sent {I = I} status) ≡ 1
unfolding sent
sent-frees I (pos n) = ground arith
sent-frees I (negsuc n) = ground arith
