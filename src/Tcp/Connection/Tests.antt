-- ===== src/Tcp/Connection/Tests.antt =====
-- A connection that is written to and closed.
use uv_cpp.Prelude.{◌≡◌, ◌+◌, true, false, List, [], ◌∷◌, none, some, codes, sum, if◌then◌else◌}
use uv_cpp.Http.Number.{pos, negsuc}
use uv_cpp.Uv.Flags.{Flags, flags, reading}
use uv_cpp.Tcp.Connection.{
  TcpConnection, Event, received, write_called, write_done, close_called, closed, server, close,
  run,
}
use uv_cpp.Tcp.Connection.Writing.{answers, waits, asked, run-answers}
use uv_cpp.Tcp.Connection.Closing.{is_delivery, is_uv_close, IsClosed, run-close}

abbrev peer : TcpConnection Flags
peer = record {
  name = codes "10.0.0.1:80";
  connected = true;
  handle = reading;
  buffer = none;
  data_size = 0;
  wrapper = none;
  on_message_callback = some server;
  on_connect_close_callback = some server;
  close_complete_callback = none;
  requests = [];
  close_pending = false;
}

abbrev writes : List Event
writes =
    write_called (codes "hi") (some 7) (pos 0)
    ∷ write_called (codes "ho") (some 7) (negsuc 31)
    ∷ write_done 0 (pos 0)
    ∷ received (negsuc 4094) []
    ∷ write_called (codes "ha") (some 7) (pos 0)
    ∷ []

run-answers_example :
    sum (answers 7) (run flags writes peer).0 + sum (waits 7) (run flags writes peer).1.requests
    ≡ sum (waits 7) peer.requests + sum (asked 7) writes
run-answers_example = run-answers flags 7 writes peer

abbrev ends : List Event
ends = received (pos 2) (codes "hi") ∷ close_called none ∷ closed ∷ []

run-close_example :
    (sum is_delivery (close flags peer (some server)).0
        + sum is_delivery (run flags ends (close flags peer (some server)).1).0
      ≡ 0)
    × (sum is_uv_close (close flags peer (some server)).0
          + sum is_uv_close (run flags ends (close flags peer (some server)).1).0
        ≡ (if flags.is_closing peer.handle then 0 else 1))
    × IsClosed flags (run flags ends (close flags peer (some server)).1).1
run-close_example = run-close flags peer (some server) ends
