-- ===== src/Kernel/Tests.antt =====
-- The kernel on small states.
use tp_sistemas_operativos_c.Common.{
  ℕ, ◌≡◌, ◌≢◌, refl, List, [], ◌∷◌, some, arith, ℤ, ◌+ℤ◌, pos, negsuc, true, false, get, nat_eq,
  string_eq,
}
use tp_sistemas_operativos_c.Utils.Pcb.{Pcb, registros_cero, exec}
use tp_sistemas_operativos_c.Kernel.Estado.{
  Kernel, al_comienzo, Recurso, RecList, viva, rec, sigue, fallo,
}
use tp_sistemas_operativos_c.Kernel.Colas.{cargar_ready}
use tp_sistemas_operativos_c.Kernel.Recursos.{guardar, una_mas}
use tp_sistemas_operativos_c.Kernel.Recursos.Registro.{
  nueva, anotar_wait, wait_en, buscar_recurso, sumar_en,
}
use tp_sistemas_operativos_c.Kernel.Syscalls.{atender_wait, atender_signal}
use tp_sistemas_operativos_c.Kernel.Planificacion.{
  cargar_ready_por_pid, iniciar_proceso, stl_vrr, tomar_turno, esperar_listo, detener_planificacion,
}
use tp_sistemas_operativos_c.Kernel.Espera.{atender_memoria, instrucciones_cargadas}
use tp_sistemas_operativos_c.Kernel.Pasos.{
  Alcanza, inicio, tras, proceso_nuevo, de_memoria, planificar, paso, planifica, detiene,
}
use tp_sistemas_operativos_c.Kernel.Pasos.Seguro.{Alcanza-IsListo, planificar-ne-fallo}
use tp_sistemas_operativos_c.Kernel.Listos.{IsListo}
use tp_sistemas_operativos_c.Kernel.Libro.{total}
use tp_sistemas_operativos_c.Kernel.Balance.{atender_wait-conserva, atender_signal-conserva}
use tp_sistemas_operativos_c.Kernel.Semaforo.{
  lista_wait, wait_bloquea, bloqueado, signal_despierta, Despertado, anotado_signal,
}

abbrev pub pcb_de : ℕ → Pcb
pcb_de n = record {
  pid = n;
  quantum = pos 2000;
  program_counter = 0;
  cpu_registro = registros_cero;
  estado = exec;
}

-- Process 1 runs and has one instance of RA; the instances free and the queue are arguments.
abbrev pub recurso : ℤ → List Pcb → Recurso
recurso n q = record { instancias_recurso = n; cola_blocked_recurso = q }

abbrev pub con_recurso : Recurso → Kernel
con_recurso r = record {
  lista_new = [];
  cola_ready = [];
  cola_ready_priori = [];
  cola_blocked = record { pcb = pcb_de 2; tipo = rec; key = "RA" } ∷ [];
  cola_exec = pcb_de 1 ∷ [];
  cola_exit = [];
  sem_cont_ready = 0;
  sem_recibir_exec = 0;
  sem_gm_actual = 3;
  cpu_libre = false;
  fase = al_comienzo;
  por_bajar = 0;
  hilo_quantum = true;
  planificacion_activa = true;
  diccionario_recursos = ("RA", r) ∷ [];
  rec_por_pid_dic = (1, viva (nueva "RA" ∷ [])) ∷ [];
  quantum = pos 2000;
  algoritmo_planificacion = "VRR";
  grado_multiprog = pos 4;
  siguiente_pid = 3;
  bool_error_memoria = false;
  bool_syscall = false;
  bool_interrupted_by_user = false;
  bool_interrumpi = false;
  enviados = [];
}

abbrev al_inicio : Kernel
al_inicio = record (con_recurso (recurso (pos 1) [])) { cpu_libre = true; cola_exec = [] }

al_inicio-IsListo : IsListo al_inicio
al_inicio-IsListo = record { cuenta = refl; sin_priori = λ h. refl }

abbrev creado : Kernel
creado = elim (paso (proceso_nuevo "A") al_inicio) [ sigue k ↦ k | _ ↦ al_inicio ]

abbrev admitido : Kernel
admitido = elim (paso (de_memoria (instrucciones_cargadas 3)) creado) [ sigue k ↦ k | _ ↦ creado ]

llega : Alcanza al_inicio admitido
unfolding paso atender_memoria cargar_ready_por_pid iniciar_proceso
llega = tras (de_memoria (instrucciones_cargadas 3)) (tras (proceso_nuevo "A") inicio refl) refl

Alcanza-IsListo_example : IsListo admitido
Alcanza-IsListo_example = Alcanza-IsListo al_inicio-IsListo llega

-- The scheduler has taken its unit, and then scheduling was stopped.
abbrev tras_planificar : Kernel → Kernel
tras_planificar k = elim (paso planifica k) [ sigue k' ↦ k' | _ ↦ k ]

abbrev con_su_unidad : Kernel
con_su_unidad = detener_planificacion (tras_planificar (tras_planificar admitido))

llega_con_unidad : Alcanza al_inicio con_su_unidad
unfolding paso planificar stl_vrr tomar_turno esperar_listo detener_planificacion atender_memoria
    cargar_ready_por_pid iniciar_proceso cargar_ready
llega_con_unidad = tras detiene (tras planifica (tras planifica llega refl) refl) refl

planificar-ne-fallo_example : planificar con_su_unidad ≢ fallo
planificar-ne-fallo_example = planificar-ne-fallo al_inicio-IsListo llega_con_unidad

abbrev una_libre : Recurso
una_libre = recurso (pos 1) []

abbrev ninguna : Recurso
ninguna = recurso (negsuc 0) (pcb_de 2 ∷ [])

abbrev dos_esperan : Recurso
dos_esperan = recurso (negsuc 1) (pcb_de 2 ∷ pcb_de 0 ∷ [])

abbrev dos_de_ra : List RecList
dos_de_ra = record { nombre_recurso = "RA"; instancias_recurso = pos 2 } ∷ []

hay_ra : (r : Recurso) → get "RA" (con_recurso r).diccionario_recursos ≡ some r
unfolding get
hay_ra r = refl

tiene_ra : (r : Recurso) → get 1 (con_recurso r).rec_por_pid_dic ≡ some (viva (nueva "RA" ∷ []))
unfolding get
tiene_ra r = refl

anota_ra : (r : Recurso) → lista_wait "RA" (get 1 (con_recurso r).rec_por_pid_dic) ≡ some dos_de_ra
unfolding get anotar_wait wait_en buscar_recurso sumar_en ◌+ℤ◌
anota_ra r = refl

halla_ra : buscar_recurso (nueva "RA" ∷ []) "RA" ≡ some 0
unfolding buscar_recurso
halla_ra = refl

wait_bloquea_example :
    atender_wait (pos 500) (pcb_de 1) "RA" (con_recurso ninguna)
    ≡ sigue (bloqueado (pos 500) (pcb_de 1) "RA" ninguna dos_de_ra [] (con_recurso ninguna))
wait_bloquea_example =
    wait_bloquea (pos 500) (pcb_de 1) (pcb_de 1) "RA" ninguna dos_de_ra [] (con_recurso ninguna)
      (hay_ra ninguna) (anota_ra ninguna) (ground arith) refl

signal_despierta_example :
    (k' : Kernel) × (atender_signal (pos 0) (pcb_de 1) "RA" (con_recurso ninguna) ≡ sigue k')
    × Despertado
        (pcb_de 2)
        (guardar "RA"
          (record (una_mas ninguna) { cola_blocked_recurso = [] })
          (anotado_signal (pcb_de 1) "RA" ninguna (nueva "RA" ∷ []) (con_recurso ninguna)))
        k'
signal_despierta_example =
    signal_despierta (pos 0) (pcb_de 1) (pcb_de 2) "RA" ninguna [] (nueva "RA" ∷ [])
      (con_recurso ninguna) (hay_ra ninguna) (tiene_ra ninguna) (ground arith) refl

atender_wait-conserva_example :
    (k' : Kernel) × (atender_wait (pos 500) (pcb_de 1) "RA" (con_recurso ninguna) ≡ sigue k')
    × (total "RA" k' ≡ total "RA" (con_recurso ninguna))
atender_wait-conserva_example =
    atender_wait-conserva (pos 500) (pcb_de 1) (pcb_de 1) "RA" "RA" ninguna dos_de_ra []
      (con_recurso ninguna) (hay_ra ninguna) (anota_ra ninguna) refl

atender_signal-conserva_example :
    (k' : Kernel) × (atender_signal (pos 0) (pcb_de 1) "RA" (con_recurso ninguna) ≡ sigue k')
    × (total "RA" k' ≡ total "RA" (con_recurso ninguna))
atender_signal-conserva_example =
    atender_signal-conserva (pos 0) (pcb_de 1) "RA" "RA" ninguna (nueva "RA" ∷ []) 0
      (con_recurso ninguna) (hay_ra ninguna) (tiene_ra ninguna) halla_ra
