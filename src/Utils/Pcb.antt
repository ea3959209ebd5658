-- ===== src/Utils/Pcb.antt =====
-- utils/src/utils/registros.h and PCB.h: the registers of the CPU and the process control block.
-- A register is the number that it holds; `uint32_t` and `uint8_t` are in the `IsValid` predicates.
use tp_sistemas_operativos_c.Common.{ℕ, ◌^◌, ◌<◌, ℤ}

-- `registros_t`; the source's names are in capitals (PC, AX, ..., DI).
pub record Registros : Type 0 where
  pub pc : ℕ
  pub ax : ℕ
  pub bx : ℕ
  pub cx : ℕ
  pub dx : ℕ
  pub eax : ℕ
  pub ebx : ℕ
  pub ecx : ℕ
  pub edx : ℕ
  pub si : ℕ
  pub di : ℕ

pub record IsValid (r : Registros) : Type 0 where
  pub pc_32 : r.pc < 2 ^ 32
  pub ax_8 : r.ax < 256
  pub bx_8 : r.bx < 256
  pub cx_8 : r.cx < 256
  pub dx_8 : r.dx < 256
  pub eax_32 : r.eax < 2 ^ 32
  pub ebx_32 : r.ebx < 2 ^ 32
  pub ecx_32 : r.ecx < 2 ^ 32
  pub edx_32 : r.edx < 2 ^ 32
  pub si_32 : r.si < 2 ^ 32
  pub di_32 : r.di < 2 ^ 32

abbrev pub registros_cero : Registros
registros_cero = record {
  pc = 0;
  ax = 0;
  bx = 0;
  cx = 0;
  dx = 0;
  eax = 0;
  ebx = 0;
  ecx = 0;
  edx = 0;
  si = 0;
  di = 0;
}

-- `t_proceso_estado`
pub data ProcesoEstado : Type 0 where
  new ready blocked exec exit : ProcesoEstado

-- `t_PCB`; a PID is a number, since the kernel counts them from 0.
pub record Pcb : Type 0 where
  pub pid : ℕ
  pub quantum : ℤ
  pub program_counter : ℕ
  pub cpu_registro : Registros
  pub estado : ProcesoEstado
