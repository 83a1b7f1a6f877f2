-- ===== src/Tests.antt =====
-- The definitions on concrete inputs, and the theorems applied to them.
pub mod Texts
pub mod Dbs
pub mod Directs
pub mod Worlds
pub mod Wires
pub mod Systems
pub mod SetSpecs
pub mod Dumps
