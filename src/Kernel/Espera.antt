-- ===== src/Kernel/Espera.antt =====
-- espera.c: the packets of the memory and of the CPU. Those that ask for an interface (the IO_ codes)
-- are in Interfaces/Llamadas.
use tp_sistemas_operativos_c.Common.{ℕ, ◌+◌, true, false, String, if◌then◌else◌, ℤ}
use tp_sistemas_operativos_c.Utils.Pcb.{Pcb, exec}
use tp_sistemas_operativos_c.Kernel.Estado.{
  Kernel, interrumpir_proceso, confirmar_syscall, Resultado, sigue, espera, ◌>>=◌,
}
use tp_sistemas_operativos_c.Kernel.Colas.{cargar_ready}
use tp_sistemas_operativos_c.Kernel.Fin.{enviar, lts_ex, desalojar, desalojar_nulo}
use tp_sistemas_operativos_c.Kernel.Syscalls.{atender_wait, atender_signal}
use tp_sistemas_operativos_c.Kernel.Planificacion.{cargar_ready_por_pid, enviar_new_exit}

-- `t_motivo_interrupcion`
pub data Motivo : Type 0 where
  syscall fin_quantum error_out_of_memory_i interrupted_by_user : Motivo

marcar : Motivo → Kernel → Kernel
marcar syscall k = record k { bool_syscall = true }
marcar fin_quantum k = record k { bool_interrumpi = true }
marcar error_out_of_memory_i k = record k { bool_error_memoria = true }
marcar interrupted_by_user k = record k { bool_interrupted_by_user = true }

unfoldable pub interrumpir : Motivo → Kernel → Kernel
unfolding marcar
interrumpir motivo k = enviar interrumpir_proceso (marcar motivo k)

-- The thread of the quantum, when its sleep is over; the scheduler joins it.
unfoldable pub manejar_quantum : Kernel → Resultado Kernel
unfolding interrumpir
manejar_quantum k =
    if k.hilo_quantum
    then sigue (interrumpir fin_quantum (record k { hilo_quantum = false }))
    else espera

pub data PaqueteMemoria : Type 0 where
  instrucciones_cargadas archivo_no_encontrado : ℕ → PaqueteMemoria
  otro_paquete : PaqueteMemoria

unfoldable pub atender_memoria : PaqueteMemoria → Kernel → Resultado Kernel
atender_memoria (instrucciones_cargadas pid) k = cargar_ready_por_pid pid k
atender_memoria (archivo_no_encontrado pid) k = enviar_new_exit pid k
atender_memoria otro_paquete k = sigue k

pub data PaqueteCpu : Type 0 where
  confirmar_exec : PaqueteCpu
  interrumpio_proceso : Pcb → PaqueteCpu
  error_out_of_memory : Pcb → PaqueteCpu
  wait signal : Pcb → String → PaqueteCpu
  termino_ejecucion : Pcb → PaqueteCpu

-- The process leaves the CPU for the end of the ready queue, also under VRR.
unfoldable pub replanificar : ℤ → Pcb → Kernel → Resultado Kernel
replanificar gastado pcb k = do s ← desalojar gastado pcb k; sigue (cargar_ready s.0 s.1)

unfoldable pub terminar : ℤ → Pcb → Kernel → Resultado Kernel
terminar gastado pcb k = do s ← desalojar gastado pcb k; lts_ex s.0 exec s.1

unfoldable pub sin_memoria : Pcb → Kernel → Resultado Kernel
sin_memoria pcb k = do k' ← lts_ex pcb exec k; sigue (record k' { bool_error_memoria = false })

-- The flag that is set first in this order decides, and is cleared; with none, nothing is done.
unfoldable pub atender_interrumpio : ℤ → Pcb → Kernel → Resultado Kernel
unfolding sin_memoria replanificar
atender_interrumpio gastado pcb k =
    if k.bool_error_memoria
    then sin_memoria pcb k
    else if k.bool_syscall
    then sigue (record k { bool_syscall = false })
    else if k.bool_interrupted_by_user
    then sigue (record k { bool_interrupted_by_user = false })
    else if k.bool_interrumpi
    then replanificar gastado pcb (record k { bool_interrumpi = false })
    else sigue k

unfoldable pub atender_cpu : ℤ → PaqueteCpu → Kernel → Resultado Kernel
unfolding interrumpir atender_interrumpio terminar
atender_cpu gastado confirmar_exec k =
    sigue (record k { sem_recibir_exec = k.sem_recibir_exec + 1 })
atender_cpu gastado (interrumpio_proceso pcb) k = atender_interrumpio gastado pcb k
atender_cpu gastado (error_out_of_memory pcb) k =
    desalojar_nulo (enviar confirmar_syscall (interrumpir error_out_of_memory_i k))
atender_cpu gastado (wait pcb recurso) k =
    atender_wait gastado pcb recurso (enviar confirmar_syscall (interrumpir syscall k))
atender_cpu gastado (signal pcb recurso) k = atender_signal gastado pcb recurso k
atender_cpu gastado (termino_ejecucion pcb) k = terminar gastado pcb k
