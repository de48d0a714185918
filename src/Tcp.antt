-- ===== src/Tcp.antt =====
-- TCP connections, the server and the client.
pub mod Connection
pub mod Accepter
pub mod Connections
pub mod Server
pub mod Client
