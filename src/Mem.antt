-- ===== src/Mem.antt =====
-- The library `src/syd/mem`: the small data optimised byte array.
pub mod Sdo
pub mod Heap
pub mod Object
