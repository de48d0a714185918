-- ===== src/Lib.antt =====
-- uv-cpp: buffers and frames, TCP connections with their server and client, HTTP messages and
-- routes, the timer wheel, timers, addresses, the log, the event loop's queue, and three of the example
-- programs.
--
-- A server accepts sockets and keeps a connection for each, by the text of its peer's address. What
-- comes in is handed to the user, who puts it into the connection's packet buffer. A user reads
-- frames out of it (Packet), or the HTTP server reads requests out of it, looks for a handler in a
-- tree of routes and writes the response. A timer wheel holds a wrapper of each connection; when the
-- last pointer to a wrapper goes, the connection is closed. Other threads hand functions to the event
-- loop's thread through a queue.
--
-- The files, and the code they model:
-- - Prelude: names of the libraries, lists measured by native numbers, Boolean tests, machine words and
--   the return codes 0 and -1 (`ok`, `failed`).
-- - Buffer/Interface: the abstract class PacketBuffer of uv/include/PacketBuffer.hpp, as a record of
--   operations and of laws on the bytes held; Packet and Http/Server take it as a parameter.
-- - Buffer/Cycle and its children: uv/CycleBuffer.cpp (append, readBufferN, clearBufferN, clear,
--   usableSize, usableSizeInfo, readSize, readSizeInfo, addWriteIndex, addReadIndex). Inv has the
--   representation invariant, Contents the view as a queue, Append and Read one operation each,
--   Trace runs sequences of calls, and View forgets by a quotient where in the array the bytes stand.
--   GlobalConfig::CycleBufferSize is the parameter `cap`.
-- - Buffer/ListBuffer: uv/ListBuffer.cpp. Buffer/Instances fills the interface with both buffers,
--   and Buffer/Any with a buffer of either kind, as a connection has it.
-- - Packet and its children: uv/Packet.cpp and uv/include/Packet.hpp (pack, getData, PacketSize, swap,
--   PackNum, UnpackNum, readFromBuffer). The static members that a program may assign are the record
--   Format. Num is about numbers in bytes, Frame about one frame, Read about one round of the loop,
--   Stream about frames among other bytes, and Stale about a bad frame.
--   Receive is the loop of a program that reads all packets of what comes in (examples/all_example/
--   EchoServer.cpp) with readPacket of uv/include/PacketBuffer.hpp.
-- - Buffer/Config: uv/GlobalConfig.cpp, and the choice of a connection's buffer.
-- - Uv: what the code calls of libuv for a handle, as an interface with laws; Uv/Flags is an instance
--   for concrete runs.
-- - Tcp/Connection and its children: uv/TcpConnection.cpp with ConnectionWrapper of
--   uv/include/TcpConnection.hpp. Writing is about the functions handed to write, Closing about close.
-- - Tcp/Accepter: uv/TcpAccepter.cpp. Tcp/Connections: the server's std::map.
-- - Tcp/Server and its children: uv/TcpServer.cpp. Run has the seconds of the wheel's timer, the
--   destroyed wrappers and runs of events, Listen bindAndListen, close and writeInLoop, Removal
--   closeConnection, Traffic what one connection reads and writes. Watch is the invariant between the
--   map and the wheel, with Drop about destroyed wrappers, Idle about seconds, Touch, Steps, Accept and
--   Events about what happens to a server, and Busy about how long a message keeps a connection.
-- - Tcp/Client and its child: uv/TcpClient.cpp.
-- - Timer and its child: uv/Timer.cpp. SocketAddr and its child: uv/SocketAddr.cpp.
-- - Udp and its child, Signal, Idle and DnsGet: the files of these names in uv.
-- - Http/Text, Http/Dict, Http/Number: what the code uses of std::string, std::map, std::stoi and
--   std::to_string. Http/Common and its children: uv/http/HttpCommon.cpp.
-- - Http/Request and its children: uv/http/Request.cpp. Http/Response and its children:
--   uv/http/Response.cpp. The modules named Part are about messages that have not come in whole; Chunks
--   has the chunk coding of RFC 7230 and single rounds of the loop over chunks, Body whole bodies.
-- - Http/RadixTree and its children: uv/include/http/RadixTree.hpp (set, setNode, get, getNode). Prefix
--   is about common fronts of texts, Node about the answer of one node, Lookup about trees without
--   wildcards, and Wildcard about paths with one.
-- - Http/Server and its children: uv/http/HttpServer.cpp (the routes and onMesage). Serve is about one
--   message and Pieces about several. Running is the HttpServer as a TcpServer, with the connection's
--   write and close; Answered follows one message to the end of its connection, Pieces a request that
--   comes in pieces, and Pipelined two requests.
-- - Http/Client and its children: uv/http/HttpClient.cpp; Pieces is about answers in several messages.
-- - TimerWheel and its child: uv/include/TimerWheel.hpp.
-- - LogWriter and its child: uv/LogWriter.cpp.
-- - EventLoop and its children: uv/EventLoop.cpp and uv/Async.cpp (run, runNoWait, stop, runInThisLoop,
--   init, process), as steps of several threads. Queue is about the order of the functions, Stopped about
--   what is handed to a loop that is being closed. Async::handle_ is a value of Handle, which says what
--   the member points to.
-- - Examples/Rpc and its child: examples/rpc. Examples/Echo and its child: the echo server and client of
--   examples/pingpang, over any packet buffer. Examples/Radix and its child: the test in
--   examples/radix_tree, for any random numbers.
-- The modules named Tests hold concrete runs.
--
-- State and errors. A class is a record of its members, and a method takes and returns it. A
-- std::function is a name: of a method that the library binds, or a number for a user's function; a
-- method gives back the list of the calls that it makes of libuv, the log and such functions. A weak
-- pointer is a number or a name, and what has expired is found out in the state of its owner. A return
-- code is `Code`; `none` of an Option is undefined behaviour of the source (a read outside a vector,
-- a null pointer) or fuel that has run out, as the comment of each definition says. Bytes are
-- numbers, and a char* with a size is a list. Numbers of 64, 32 and 16 bits have their wrap-around
-- written out where the source computes with them.
--
-- Bounds and fuel. An array of a CycleBuffer has 2 ^ 63 bytes at most, so that a sum of two indices
-- does not wrap. The loop of readFromBuffer has fuel for one round more than the buffer holds bytes,
-- which is enough since each round but the last takes a byte out. The loops of SplitHttpOfCRLF,
-- SplitStrOfSpace and unpackPath have fuel for every position of the text, and each round moves the
-- position on. The loop over chunks has no bound in the source; its fuel is an argument, and
-- one round for each chunk and one more are enough for a chunk coding. Texts are
-- taken to be shorter than 2 GiB where the source keeps a position in an int.
--
-- Memory that libuv reads after a call: HttpServer and HttpClient free the text of a message when their
-- function returns, and uv_write reads later what the system did not take at once. How much it has taken
-- by then is an argument (UvWrite of Http/Server/Running, `taken` of Http/Client), and a write that is
-- left with bytes of that memory is a fault.
--
-- Not modelled: that memory runs out (an append that throws; Response::isCompletedChunked catches it as
-- an error); how long the callers of TcpConnection::write in other places, the example programs
-- among them, keep the bytes they write; the headers of libuv; the allocation and deletion of handles
-- where no member depends on it; of the example programs the functions main, RpcCtrl::backRun and the handlers
-- beside a main function (http_server, server_quit, loop_exit), which put the library's classes
-- together, and the two programs for boost.asio, another library. A user's function that calls the
-- library again while it is called is taken as a later event, but for HttpServer, whose calls are
-- made where it makes them.
pub mod Prelude
pub mod Buffer
pub mod Packet
pub mod Http
pub mod TimerWheel
pub mod LogWriter
pub mod EventLoop
pub mod Uv
pub mod SocketAddr
pub mod Timer
pub mod Udp
pub mod Signal
pub mod Idle
pub mod DnsGet
pub mod Tcp
pub mod Examples
