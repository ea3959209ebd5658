-- ===== src/Kernel.antt =====
-- kernel/src: the process scheduler and the system calls.
pub mod Estado
pub mod Colas
pub mod Recursos
pub mod Fin
pub mod Syscalls
pub mod Planificacion
pub mod Espera
pub mod Listos
pub mod Pasos
pub mod Libro
pub mod Conserva
pub mod Semaforo
pub mod Balance
pub mod Interfaces
mod Tests
