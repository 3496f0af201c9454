-- ===== src/Volume.antt =====
-- src/volume.c: the project volume. Its directory is there, and economy.txt can be written; which files
-- of lsd/ can be, the field `writes` of a volume tells.
pub mod Economy
pub mod LinksetData
pub mod Files
pub mod Persistence
