-- ===== src/Builtins.antt =====
-- src/builtins.c: the built-ins.
pub mod Args
pub mod Constants
pub mod Effects
pub mod Encoding
pub mod Lists
pub mod ListText
pub mod Listens
pub mod Hearing
pub mod InBounds
pub mod Search
pub mod Sort
pub mod Splitting
pub mod Strings
pub mod Stubs
pub mod Substrings
pub mod Table
pub mod Sublists
pub mod Hosts
