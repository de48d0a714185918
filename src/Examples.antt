-- ===== src/Examples.antt =====
-- The programs of examples that have logic of their own: rpc, radix_tree, and pingpang with
-- all_example.
pub mod Rpc
pub mod Radix
pub mod Echo
