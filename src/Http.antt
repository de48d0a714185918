-- ===== src/Http.antt =====
-- uv/http: text search, the header maps, the functions of HttpCommon.cpp, requests and responses,
-- and the radix tree of routes.
pub mod Text
pub mod Dict
pub mod Common
pub mod Number
pub mod Request
pub mod Response
pub mod RadixTree
pub mod Server
pub mod Client
