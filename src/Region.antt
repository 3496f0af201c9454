-- ===== src/Region.antt =====
-- src/region.c and src/dialog.c: the region, its scripts and the loop that runs them.
pub mod State
pub mod Avatars
pub mod Dialogs
pub mod Queue
pub mod Dispatch
pub mod Loop
pub mod Balances
pub mod Delivery
pub mod Menus
pub mod Progress
