-- ===== src/Cpu.antt =====
-- cpu/src: the instruction cycle, the registers and the translation of addresses.
pub mod Tlb
pub mod Mmu
pub mod Registros
pub mod Instrucciones
mod Tests
