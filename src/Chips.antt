-- ===== src/Chips.antt =====
-- The chips of the machine beside the memory and the program: their records and the methods
-- that the instructions call on them.
pub mod Cpu
pub mod Alu
pub mod Range
pub mod Output
pub mod StaticData
pub mod Advice
pub mod Tape
pub mod Checked
