-- ===== src/Utils.antt =====
-- utils/src/utils: what the four programs share.
pub mod Pcb
pub mod Serializacion
pub mod Paquetes
mod Tests
