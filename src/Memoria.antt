-- ===== src/Memoria.antt =====
-- memoria/src: the processes, their page tables and the frames.
pub mod Marcos
pub mod Procesos
pub mod Reparto
pub mod Carga
pub mod Bytes
pub mod Peticiones
mod Tests
