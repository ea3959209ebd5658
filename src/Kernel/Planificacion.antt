-- ===== src/Kernel/Planificacion.antt =====
-- planificacion.c: the long-term and the short-term scheduler. One step of a pass of a `stl_`
-- loop is one call; a step is what its thread does up to where it can wait.
use tp_sistemas_operativos_c.Common.{
  ℕ, zero, suc, ◌+◌, ◌==◌, ◌&&◌, not, true, false, String, List, [], ◌∷◌, ◌++◌, Option, none, some,
  if◌then◌else◌, ℤ, pos, pos_part, ltb_ℤ, ◌-ℤ◌,
}
use tp_sistemas_operativos_c.Utils.Pcb.{Pcb, registros_cero, new, exec, ready}
use tp_sistemas_operativos_c.Kernel.Estado.{
  Kernel, Fase, al_comienzo, vio_activa, con_unidad, despacho, con_quantum, crear_proceso,
  exec_proceso, Resultado, sigue, espera, fallo, ◌>>=◌,
}
use tp_sistemas_operativos_c.Kernel.Colas.{cargar_ready}
use tp_sistemas_operativos_c.Kernel.Fin.{enviar, lts_ex}

unfoldable pub crear_pcb : ℕ → Kernel → Pcb
crear_pcb num_pid k = record {
  pid = num_pid;
  quantum = k.quantum;
  program_counter = 0;
  cpu_registro = registros_cero;
  estado = new;
}

-- The request to the memory goes first; PIDs are given in order.
unfoldable pub iniciar_proceso : String → Kernel → Kernel
unfolding crear_pcb
iniciar_proceso path k =
    let k' = enviar (crear_proceso path k.siguiente_pid) k in
    record k' {
      lista_new = k.lista_new ++ (crear_pcb k.siguiente_pid k ∷ []);
      siguiente_pid = k.siguiente_pid + 1;
    }

-- `list_find` and `list_remove_by_condition`: the first block with the PID, and the list without it.
unfoldable pub buscar_new : ℕ → List Pcb → Option Pcb
buscar_new pid [] = none
buscar_new pid (p ∷ ps) = if p.pid == pid then some p else buscar_new pid ps

unfoldable pub quitar_new : ℕ → List Pcb → List Pcb
quitar_new pid [] = []
quitar_new pid (p ∷ ps) = if p.pid == pid then ps else p ∷ quitar_new pid ps

-- A list with no such block is left as it is, by either.
unfoldable pub get_and_remove_pcb : ℕ → Kernel → Option Pcb × Kernel
unfolding buscar_new quitar_new
get_and_remove_pcb pid k =
    (buscar_new pid k.lista_new, record k { lista_new = quitar_new pid k.lista_new })

-- `sem_wait(&sem_gm_actual)`, at the value of the semaphore.
unfoldable pub esperar_grado : ℕ → Kernel → Resultado Kernel
esperar_grado zero k = espera
esperar_grado (suc n) k = sigue (record k { sem_gm_actual = n })

unfoldable pub admitir : Option Pcb → Kernel → Kernel
admitir none k = k
admitir (some pcb) k = cargar_ready pcb k

-- Waits for the degree of multiprogramming, then looks for the block.
unfoldable pub cargar_ready_por_pid : ℕ → Kernel → Resultado Kernel
unfolding get_and_remove_pcb esperar_grado admitir
cargar_ready_por_pid pid k = do
  k' ← esperar_grado k.sem_gm_actual k
  let s = get_and_remove_pcb pid k'
  sigue (admitir s.0 s.1)

unfoldable pub rechazar : Option Pcb → Kernel → Resultado Kernel
rechazar none k = fallo
rechazar (some pcb) k = lts_ex pcb new k

-- The memory found no file for the process: it ends without having been admitted.
unfoldable pub enviar_new_exit : ℕ → Kernel → Resultado Kernel
unfolding get_and_remove_pcb rechazar
enviar_new_exit pid k = let s = get_and_remove_pcb pid k in rechazar s.0 s.1

-- `sem_wait(&sem_cont_ready)`, at the value of the semaphore.
unfoldable pub esperar_listo : ℕ → Kernel → Resultado Kernel
esperar_listo zero k = espera
esperar_listo (suc n) k = sigue (record k { sem_cont_ready = n; fase = con_unidad })

-- One step of a pass of the loop, from where its thread is: scheduling is not stopped, some process
-- is ready, the CPU is free, and then what the algorithm does. A unit that was taken is held while
-- the CPU is not free, and scheduling may stop meanwhile.
unfoldable pub tomar_turno : (Kernel → Resultado Kernel) → Fase → Kernel → Resultado Kernel
unfolding esperar_listo
tomar_turno despachar al_comienzo k =
    if k.planificacion_activa then sigue (record k { fase = vio_activa }) else espera
tomar_turno despachar vio_activa k = esperar_listo k.sem_cont_ready k
tomar_turno despachar con_unidad k =
    if k.cpu_libre then despachar (record k { cpu_libre = false }) else espera
tomar_turno despachar despacho k = espera
tomar_turno despachar con_quantum k =
    if k.hilo_quantum then espera else sigue (record k { fase = al_comienzo })

unfoldable pub sacar_ready : Kernel → Resultado (Pcb × Kernel)
sacar_ready k = elim k.cola_ready [ [] ↦ fallo | p ∷ q ↦ sigue (p, record k { cola_ready = q }) ]

unfoldable pub a_exec : Pcb → Kernel → Kernel
a_exec p k = record k { cola_exec = k.cola_exec ++ (p ∷ []) }

unfoldable pub despachar_fifo : Kernel → Resultado Kernel
unfolding sacar_ready a_exec
despachar_fifo k = do
  s ← sacar_ready k
  let p = record (s.0) { estado = exec }
  sigue (enviar (exec_proceso p) (record (a_exec p s.1) { fase = al_comienzo }))

unfoldable pub stl_fifo : Kernel → Resultado Kernel
unfolding tomar_turno despachar_fifo
stl_fifo k = tomar_turno despachar_fifo k.fase k

unfoldable pub despachar_rr : Kernel → Resultado Kernel
unfolding sacar_ready a_exec
despachar_rr k = do
  s ← sacar_ready k
  let p = record (s.0) { estado = exec; quantum = k.quantum }
  sigue (enviar (exec_proceso p) (record (a_exec p s.1) { fase = despacho }))

unfoldable pub stl_rr : Kernel → Resultado Kernel
unfolding tomar_turno despachar_rr
stl_rr k = tomar_turno despachar_rr k.fase k

-- The queue with priority goes first.
unfoldable pub sacar_priori : Kernel → Resultado (Pcb × Kernel)
unfolding sacar_ready
sacar_priori k = elim k.cola_ready_priori [
  | [] ↦ sacar_ready k
  | p ∷ q ↦ sigue (p, record k { cola_ready_priori = q })
]

-- A process with no quantum left gets a new one and goes to the end of the ready queue; the CPU
-- stays free. Any other is sent to the CPU.
unfoldable pub enviar_vrr : Pcb → Kernel → Resultado Kernel
unfolding a_exec
enviar_vrr p k =
    let q = record p { estado = ready; quantum = k.quantum } in
    let k' = a_exec p k in
    if ltb_ℤ (pos 0) p.quantum
    then sigue (enviar (exec_proceso p) (record k' { fase = despacho }))
    else (elim k'.cola_exec [
      | [] ↦ fallo
      | _ ∷ es ↦ sigue (record k' {
        cola_ready = k'.cola_ready ++ (q ∷ []);
        cola_exec = es;
        sem_cont_ready = k'.sem_cont_ready + 1;
        cpu_libre = true;
        fase = al_comienzo;
      })
    ])

unfoldable pub despachar_vrr : Kernel → Resultado Kernel
unfolding sacar_priori enviar_vrr
despachar_vrr k = do s ← sacar_priori k; enviar_vrr (record (s.0) { estado = exec }) s.1

unfoldable pub stl_vrr : Kernel → Resultado Kernel
unfolding tomar_turno despachar_vrr
stl_vrr k = tomar_turno despachar_vrr k.fase k

-- `sem_wait(&sem_recibir_exec)`, at the value of the semaphore, then the thread of the quantum
-- starts.
unfoldable pub recibir_exec : Fase → ℕ → Kernel → Resultado Kernel
recibir_exec despacho (suc n) k =
    sigue (record k { sem_recibir_exec = n; hilo_quantum = true; fase = con_quantum })
recibir_exec _ _ k = espera

unfoldable pub stl_confirmado : Kernel → Resultado Kernel
unfolding recibir_exec
stl_confirmado k = recibir_exec k.fase k.sem_recibir_exec k

unfoldable pub detener_planificacion : Kernel → Kernel
detener_planificacion k = record k { planificacion_activa = false }

unfoldable pub iniciar_planificacion : Kernel → Kernel
iniciar_planificacion k = record k { planificacion_activa = true }

-- A turn of the loop that lowers the degree, of which `n` are left: the console takes a unit, or
-- waits with those that it took.
unfoldable pub bajar_de : ℕ → Kernel → Resultado Kernel
unfolding esperar_grado
bajar_de zero k = espera
bajar_de (suc n) k = do k' ← esperar_grado k.sem_gm_actual k; sigue (record k' { por_bajar = n })

unfoldable pub bajar_grado : Kernel → Resultado Kernel
unfolding bajar_de
bajar_grado k = bajar_de k.por_bajar k

-- `n` times `sem_post`.
unfoldable pub subir_grado : ℕ → Kernel → Kernel
subir_grado zero k = k
subir_grado (suc n) k = subir_grado n (record k { sem_gm_actual = k.sem_gm_actual + 1 })

-- Where the degree goes down, the turns of `bajar_grado` follow; the console, which waits in them,
-- gives no other order meanwhile.
unfoldable pub modificar_multiprogramacion : ℤ → Kernel → Resultado Kernel
unfolding subir_grado
modificar_multiprogramacion num k =
    if not (k.por_bajar == 0)
    then espera
    else if ltb_ℤ (pos 0) num && ltb_ℤ num (pos 500)
    then (if ltb_ℤ num k.grado_multiprog
        then sigue (record k { por_bajar = pos_part (k.grado_multiprog -ℤ num) })
        else if ltb_ℤ k.grado_multiprog num
        then sigue (subir_grado (pos_part (num -ℤ k.grado_multiprog)) k)
        else sigue k)
    else sigue k
