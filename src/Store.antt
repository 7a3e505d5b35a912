-- ===== src/Store.antt =====
-- The containers of the standard library that the program keeps its state in.
pub mod Dict
pub mod NodeList
pub mod Linked
pub mod Lifetimes
pub mod Counted
