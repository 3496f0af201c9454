-- ===== src/Builtins/Effects.antt =====
-- src/builtins.c: the built-ins that read or change the region. What they print is left out.
pub mod Effect
pub mod Chat
pub mod Links
pub mod Objects
pub mod Messages
pub mod Conservation
pub mod Money
pub mod Linkset
pub mod Web
pub mod Requests
