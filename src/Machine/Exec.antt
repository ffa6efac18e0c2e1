-- ===== src/Machine/Exec.antt =====
-- The instructions' `execute` methods, by the crate that defines them.
pub mod Core
pub mod Alu
pub mod Compare
pub mod Write
