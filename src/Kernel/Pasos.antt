-- ===== src/Kernel/Pasos.antt =====
-- The kernel as a whole: its handlers as events, and the states that they reach.
-- The console's FINALIZAR_PROCESO is not among the events; those of the interfaces are in
-- Interfaces/Pasos.
pub mod Seguro
use tp_sistemas_operativos_c.Common.{
  ℕ, suc, ◌+◌, ◌≡◌, ◌≢◌, refl, String, str_eq, Bool, true, false, List, [], ◌∷◌, ◌++◌, arith,
  length, length-append, if◌then◌else◌, ℤ, Bool-cases, inl, inr,
}
use tp_sistemas_operativos_c.Utils.Pcb.{Pcb}
use tp_sistemas_operativos_c.Kernel.Estado.{Kernel, es_vrr, Resultado, sigue, espera, fallo, ◌>>=◌}
use tp_sistemas_operativos_c.Kernel.Planificacion.{
  iniciar_proceso, stl_fifo, stl_rr, stl_vrr, stl_confirmado, detener_planificacion,
  iniciar_planificacion, modificar_multiprogramacion, bajar_grado,
}
use tp_sistemas_operativos_c.Kernel.Espera.{
  PaqueteMemoria, PaqueteCpu, atender_memoria, atender_cpu, manejar_quantum,
}

-- One step of the loop that `planificacion` chose; with no known algorithm its thread ends.
unfoldable pub planificar : Kernel → Resultado Kernel
unfolding stl_fifo stl_rr stl_vrr
planificar k =
    if str_eq k.algoritmo_planificacion "FIFO"
    then stl_fifo k
    else if str_eq k.algoritmo_planificacion "RR"
    then stl_rr k
    else if str_eq k.algoritmo_planificacion "VRR"
    then stl_vrr k
    else sigue k

pub data Evento : Type 0 where
  proceso_nuevo : String → Evento
  de_memoria : PaqueteMemoria → Evento
  de_cpu : ℤ → PaqueteCpu → Evento
  planifica confirmado fin_de_quantum detiene reanuda baja_grado : Evento
  multiprogramacion : ℤ → Evento

unfoldable pub paso : Evento → Kernel → Resultado Kernel
unfolding planificar
paso (proceso_nuevo path) k = sigue (iniciar_proceso path k)
paso (de_memoria p) k = atender_memoria p k
paso (de_cpu gastado p) k = atender_cpu gastado p k
paso planifica k = planificar k
paso confirmado k = stl_confirmado k
paso fin_de_quantum k = manejar_quantum k
paso detiene k = sigue (detener_planificacion k)
paso reanuda k = sigue (iniciar_planificacion k)
paso baja_grado k = bajar_grado k
paso (multiprogramacion n) k = modificar_multiprogramacion n k

-- The states that events lead to, in any order in which each is possible.
pub data Alcanza (k : Kernel) : Kernel → Type 0 where
  inicio : Alcanza k k
  tras : {a b : Kernel} (e : Evento) → Alcanza k a → paso e a ≡ sigue b → Alcanza k b
