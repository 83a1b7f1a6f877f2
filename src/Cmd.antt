-- ===== src/Cmd.antt =====
-- The commands.
pub mod Lists
pub mod Keys
pub mod Sets
pub mod Blocking
pub mod Framing
pub mod ListSpec
pub mod Push
pub mod Pop
pub mod Index
pub mod Slices
pub mod Remove
pub mod Insert
pub mod Versions
pub mod Waits
pub mod SetSpec
pub mod Spop
pub mod KeysSpec
