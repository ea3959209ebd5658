-- ===== src/Kernel/Interfaces/Llamadas.antt =====
-- kernel/src/espera.c: the packets of the CPU that ask for an interface.
use tp_sistemas_operativos_c.Common.{ℕ, String, ℤ}
use tp_sistemas_operativos_c.Utils.Pcb.{Pcb}
use tp_sistemas_operativos_c.Kernel.Estado.{Resultado}
use tp_sistemas_operativos_c.Kernel.Interfaces.{
  io_fs_create, io_fs_delete, io_fs_write, io_fs_read, Sistema, atender_io_stdin_read,
  atender_io_stdout_write, atender_fs_create_or_delate, atender_fs_truncate,
  atender_fs_write_or_read, atender_io_gen_sleep, atender_syscall_io,
}

-- The block, the name of the interface, and the rest of each payload.
pub data PaqueteCpuIo : Type 0 where
  cpu_stdin_read cpu_stdout_write : Pcb → String → ℤ → ℤ → PaqueteCpuIo
  cpu_fs_create cpu_fs_delete : Pcb → String → String → PaqueteCpuIo
  cpu_fs_truncate : Pcb → String → String → ℤ → PaqueteCpuIo
  cpu_fs_write cpu_fs_read : Pcb → String → String → ℤ → ℤ → ℤ → PaqueteCpuIo
  cpu_gen_sleep : Pcb → String → ℤ → PaqueteCpuIo

unfoldable pub atender_cpu_io : ℤ → PaqueteCpuIo → Sistema → Resultado Sistema
unfolding atender_syscall_io atender_io_stdin_read atender_io_stdout_write
    atender_fs_create_or_delate atender_fs_truncate atender_fs_write_or_read atender_io_gen_sleep
atender_cpu_io gastado (cpu_stdin_read pcb io tam dir_fisica) =
    atender_syscall_io gastado (atender_io_stdin_read tam dir_fisica io) pcb
atender_cpu_io gastado (cpu_stdout_write pcb io direccion_fisica tam) =
    atender_syscall_io gastado (atender_io_stdout_write direccion_fisica tam io) pcb
atender_cpu_io gastado (cpu_fs_create pcb io archivo) =
    atender_syscall_io gastado (atender_fs_create_or_delate archivo io_fs_create io) pcb
atender_cpu_io gastado (cpu_fs_delete pcb io archivo) =
    atender_syscall_io gastado (atender_fs_create_or_delate archivo io_fs_delete io) pcb
atender_cpu_io gastado (cpu_fs_truncate pcb io archivo tam) =
    atender_syscall_io gastado (atender_fs_truncate archivo tam io) pcb
atender_cpu_io gastado (cpu_fs_write pcb io archivo tam dir_fisica puntero) =
    atender_syscall_io gastado
      (atender_fs_write_or_read archivo tam dir_fisica puntero io_fs_write io) pcb
atender_cpu_io gastado (cpu_fs_read pcb io archivo tam dir_fisica puntero) =
    atender_syscall_io gastado
      (atender_fs_write_or_read archivo tam dir_fisica puntero io_fs_read io) pcb
atender_cpu_io gastado (cpu_gen_sleep pcb io tiempo) =
    atender_syscall_io gastado (atender_io_gen_sleep tiempo io) pcb

-- The process that asks.
unfoldable pub pid_de : PaqueteCpuIo → ℕ
pid_de (cpu_stdin_read pcb io a b) = pcb.pid
pid_de (cpu_stdout_write pcb io a b) = pcb.pid
pid_de (cpu_fs_create pcb io a) = pcb.pid
pid_de (cpu_fs_delete pcb io a) = pcb.pid
pid_de (cpu_fs_truncate pcb io a b) = pcb.pid
pid_de (cpu_fs_write pcb io a b c d) = pcb.pid
pid_de (cpu_fs_read pcb io a b c d) = pcb.pid
pid_de (cpu_gen_sleep pcb io a) = pcb.pid
