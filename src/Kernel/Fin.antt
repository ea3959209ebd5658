-- ===== src/Kernel/Fin.antt =====
-- planificacion.c: how a process leaves the CPU (`desalojar`) and how it ends (`lts_ex`).
pub mod Leyes
use tp_sistemas_operativos_c.Common.{
  ℕ, ◌+◌, Bool, true, false, ◌||◌, List, [], ◌∷◌, ◌++◌, Option, none, some, if◌then◌else◌, ℤ, ◌-ℤ◌,
  ◌≡◌,
}
use tp_sistemas_operativos_c.Utils.Pcb.{Pcb, ProcesoEstado, new, ready, blocked, exec, exit}
use tp_sistemas_operativos_c.Kernel.Estado.{
  Kernel, es_rr, es_vrr, Mensaje, finalizar_proceso, Resultado, sigue, espera, fallo, ◌>>=◌,
}
use tp_sistemas_operativos_c.Kernel.Recursos.{modificar_fin_proc_dic_rec}

abbrev pub enviar : Mensaje → Kernel → Kernel
enviar m k = record k { enviados = k.enviados ++ (m ∷ []) }

-- `if (estado_anterior != NEW) sem_post(&sem_gm_actual)`
unfoldable pub devolver_grado : ProcesoEstado → Kernel → Kernel
devolver_grado new k = k
devolver_grado _ k = record k { sem_gm_actual = k.sem_gm_actual + 1 }

-- The reason of the end is only logged.
unfoldable pub lts_ex : Pcb → ProcesoEstado → Kernel → Resultado Kernel
unfolding devolver_grado
lts_ex pcb estado_anterior k = do
  k' ← modificar_fin_proc_dic_rec pcb.pid (devolver_grado estado_anterior k)
  sigue (
      enviar (finalizar_proceso pcb.pid)
        (record k' { cola_exit = k'.cola_exit ++ (record pcb { estado = exit } ∷ []) }))

-- Under VRR the time since `iniciar_quantum`, `gastado`, is taken from the block's quantum.
abbrev pub modificar_quantum : ℤ → Pcb → Pcb
modificar_quantum gastado pcb = record pcb { quantum = pcb.quantum -ℤ gastado }

-- The block that runs is taken from `cola_exec` and freed; the CPU is free.
unfoldable pub soltar_de : List Pcb → Kernel → Resultado Kernel
soltar_de [] k = fallo
soltar_de (p ∷ q) k = sigue (record k { cola_exec = q; cpu_libre = true })

unfoldable pub soltar_cpu : Kernel → Resultado Kernel
unfolding soltar_de
soltar_cpu k = soltar_de k.cola_exec k

-- `pthread_cancel(hilo_quantum)` under RR and VRR.
abbrev pub hilo_cancelado : Kernel → Bool
hilo_cancelado k = if es_rr k || es_vrr k then false else k.hilo_quantum

-- The block that the CPU sent back is changed in place: the result holds it.
unfoldable pub desalojar : ℤ → Pcb → Kernel → Resultado (Pcb × Kernel)
unfolding soltar_cpu
desalojar gastado pcb k = do
  k2 ← soltar_cpu (record k { hilo_quantum = hilo_cancelado k })
  sigue (if es_vrr k then modificar_quantum gastado pcb else pcb, k2)

-- `desalojar(NULL)`: under VRR the quantum of a null block is read.
unfoldable pub desalojar_nulo : Kernel → Resultado Kernel
unfolding soltar_cpu
desalojar_nulo k =
    if es_vrr k
    then fallo
    else soltar_cpu (record k { hilo_quantum = if es_rr k then false else k.hilo_quantum })
