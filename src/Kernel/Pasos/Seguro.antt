-- ===== src/Kernel/Pasos/Seguro.antt =====
-- What holds of every state of the kernel that its events reach.
use mathlib.Core.Path.{subst}
use tp_sistemas_operativos_c.Common.{
  ℕ, zero, suc, ◌+◌, ◌≡◌, refl, length, ◌≢◌, String, str_eq, eq_iff, true, false, List, [], ◌∷◌,
  ◌++◌, ap, arith, length-append, ℤ, Bool-cases, inl, inr, pos_part, ◌-ℤ◌, ◌⊎◌, Option, none, some,
}
use tp_sistemas_operativos_c.Utils.Pcb.{Pcb, new, ready, exec}
use tp_sistemas_operativos_c.Kernel.Estado.{
  Kernel, Fase, unidades, al_comienzo, vio_activa, con_unidad, despacho, con_quantum, es_vrr,
  Resultado, sigue, fallo,
}
use tp_sistemas_operativos_c.Kernel.Planificacion.{
  iniciar_proceso, stl_fifo, stl_rr, stl_vrr, stl_confirmado, recibir_exec, detener_planificacion,
  iniciar_planificacion, modificar_multiprogramacion, esperar_grado, admitir, rechazar,
  cargar_ready_por_pid, enviar_new_exit, get_and_remove_pcb, bajar_grado, subir_grado,
  despachar_fifo, despachar_rr, despachar_vrr, enviar_vrr, tomar_turno, esperar_listo, bajar_de,
  sacar_priori, sacar_ready, buscar_new,
}
use tp_sistemas_operativos_c.Kernel.Espera.{
  PaqueteMemoria, instrucciones_cargadas, archivo_no_encontrado, otro_paquete, atender_interrumpio,
  replanificar, terminar, sin_memoria, PaqueteCpu, confirmar_exec, interrumpio_proceso,
  error_out_of_memory, wait, signal, termino_ejecucion, atender_memoria, atender_cpu,
  manejar_quantum,
}
use tp_sistemas_operativos_c.Kernel.Listos.{
  Tras, Tras-map, IsListo, cargar_ready-IsListo, lts_ex-IsListo, atender_wait-IsListo,
  atender_signal-IsListo, desalojar-IsListo, desalojar_nulo-IsListo,
}
use tp_sistemas_operativos_c.Kernel.Pasos.{
  planificar, Evento, proceso_nuevo, de_memoria, de_cpu, planifica, confirmado, fin_de_quantum,
  detiene, reanuda, baja_grado, multiprogramacion, paso, Alcanza, inicio, tras,
}

esperar_grado-IsListo : (n : ℕ) (k : Kernel) → IsListo k → Tras IsListo (esperar_grado n k)
unfolding esperar_grado
esperar_grado-IsListo zero k v = tt
esperar_grado-IsListo (suc n) k v = record { cuenta = v.cuenta; sin_priori = v.sin_priori }

admitir-IsListo : (o : Option Pcb) (k : Kernel) → IsListo k → IsListo (admitir o k)
unfolding admitir
admitir-IsListo none k v = v
admitir-IsListo (some p) k v = cargar_ready-IsListo p k v

cargar-IsListo : (pid : ℕ) (k : Kernel) → IsListo k → Tras IsListo (cargar_ready_por_pid pid k)
unfolding cargar_ready_por_pid
cargar-IsListo pid k v =
    Tras-map IsListo IsListo (esperar_grado k.sem_gm_actual k)
      (λ k'. let s = get_and_remove_pcb pid k' in sigue (admitir s.0 s.1))
      (λ k' w.
        admitir-IsListo (buscar_new pid k'.lista_new) _
          (record { cuenta = w.cuenta; sin_priori = w.sin_priori }))
      (esperar_grado-IsListo k.sem_gm_actual k v)

rechazar-IsListo : (o : Option Pcb) (k : Kernel) → IsListo k → Tras IsListo (rechazar o k)
unfolding rechazar
rechazar-IsListo none k v = tt
rechazar-IsListo (some p) k v = lts_ex-IsListo p new k v

memoria-IsListo : (q : PaqueteMemoria) (k : Kernel) → IsListo k → Tras IsListo (atender_memoria q k)
unfolding atender_memoria enviar_new_exit
memoria-IsListo (instrucciones_cargadas pid) k v = cargar-IsListo pid k v
memoria-IsListo (archivo_no_encontrado pid) k v =
    rechazar-IsListo (buscar_new pid k.lista_new) _
      (record { cuenta = v.cuenta; sin_priori = v.sin_priori })
memoria-IsListo otro_paquete k v = v

-- What is asked of a pass of the scheduler.
abbrev Bien : Resultado Kernel → Type 0
Bien m = Tras IsListo m × (m ≢ fallo)

-- A step is safe if what the algorithm does with a unit and the CPU is.
tomar_turno-Bien :
    (d : Kernel → Resultado Kernel) (f : Fase) (k : Kernel)
    → k.fase ≡ f
    → IsListo k
    → (IsListo (record k { cpu_libre = false })
        → k.fase ≡ con_unidad
        → Bien (d (record k { cpu_libre = false })))
    → Bien (tomar_turno d f k)
unfolding tomar_turno esperar_listo
tomar_turno-Bien d al_comienzo k e v h = ground (arith, ap unidades e, v.cuenta)
tomar_turno-Bien d vio_activa k e v h = ground (arith, ap unidades e, v.cuenta)
tomar_turno-Bien d con_unidad k e v h = elim (Bool-cases k.cpu_libre) [
  | inl l ↦ rw l (h (record { cuenta = v.cuenta; sin_priori = v.sin_priori }) e)
  | inr l ↦ rw l (tt, λ x. cc)
]
tomar_turno-Bien d despacho k e v h = (tt, λ x. cc)
tomar_turno-Bien d con_quantum k e v h = ground (arith, ap unidades e, v.cuenta)

fifo-Bien :
    (k : Kernel) → IsListo k → es_vrr k ≡ false → k.fase ≡ con_unidad → Bien (despachar_fifo k)
unfolding despachar_fifo
fifo-Bien k v e f = ground (arith, v.sin_priori e, ap unidades f)

rr-Bien : (k : Kernel) → IsListo k → es_vrr k ≡ false → k.fase ≡ con_unidad → Bien (despachar_rr k)
unfolding despachar_rr
rr-Bien k v e f = ground (arith, v.sin_priori e, ap unidades f)

a_exec-ne-nil : (p : Pcb) (es : List Pcb) → es ++ (p ∷ []) ≢ []
a_exec-ne-nil p [] h = cc
a_exec-ne-nil p (x ∷ es) h = cc

enviar_vrr-Bien :
    (p : Pcb) (k : Kernel)
    → k.sem_cont_ready ≡ length k.cola_ready + length k.cola_ready_priori
    → (es_vrr k ≡ false → k.cola_ready_priori ≡ [])
    → Bien (enviar_vrr p k)
unfolding enviar_vrr
enviar_vrr-Bien p k v w = ground (
  arith,
  a_exec-ne-nil p k.cola_exec,
  length-append k.cola_ready (record p { estado = ready; quantum = k.quantum } ∷ []),
)

vrr_de-Bien :
    (pr re : List Pcb) (k : Kernel)
    → k.cola_ready_priori ≡ pr
    → k.cola_ready ≡ re
    → IsListo k
    → es_vrr k ≡ true
    → k.fase ≡ con_unidad
    → Bien (despachar_vrr k)
unfolding despachar_vrr sacar_priori sacar_ready
vrr_de-Bien (p ∷ q) re k e1 e2 v e f =
    rw (sacar_priori, e1)
      (enviar_vrr-Bien (record p { estado = exec }) (record k { cola_ready_priori = q })
        (omega (arith, v.cuenta, ap unidades f, ap length e1)) (λ h. cc))
vrr_de-Bien [] (p ∷ q) k e1 e2 v e f =
    rw (sacar_priori, e1, sacar_ready, e2)
      (enviar_vrr-Bien (record p { estado = exec }) (record k { cola_ready = q })
        (omega (arith, v.cuenta, ap unidades f, ap length e2)) v.sin_priori)
vrr_de-Bien [] [] k e1 e2 v e f =
    absurd (omega (arith, v.cuenta, ap unidades f, ap length e1, ap length e2))

vrr-Bien : (k : Kernel) → IsListo k → es_vrr k ≡ true → k.fase ≡ con_unidad → Bien (despachar_vrr k)
vrr-Bien k v e f = vrr_de-Bien k.cola_ready_priori k.cola_ready k refl refl v e f

stl_fifo-Bien : (k : Kernel) → IsListo k → es_vrr k ≡ false → Bien (stl_fifo k)
unfolding stl_fifo
stl_fifo-Bien k v e = tomar_turno-Bien despachar_fifo k.fase k refl v (λ w f. fifo-Bien _ w e f)

stl_rr-Bien : (k : Kernel) → IsListo k → es_vrr k ≡ false → Bien (stl_rr k)
unfolding stl_rr
stl_rr-Bien k v e = tomar_turno-Bien despachar_rr k.fase k refl v (λ w f. rr-Bien _ w e f)

stl_vrr-Bien : (k : Kernel) → IsListo k → es_vrr k ≡ true → Bien (stl_vrr k)
unfolding stl_vrr
stl_vrr-Bien k v e = tomar_turno-Bien despachar_vrr k.fase k refl v (λ w f. vrr-Bien _ w e f)

-- The names of the algorithms differ.
no_vrr : (a : String) → str_eq a "VRR" ≡ false ⊎ (str_eq a "FIFO" ≡ false) × (str_eq a "RR" ≡ false)
no_vrr a = elim (Bool-cases (str_eq a "VRR")) [
  | inl e ↦
      let same : a ≡ "VRR" = (eq_iff a "VRR").0 e in
      inr (ap (λ s. str_eq s "FIFO") same, ap (λ s. str_eq s "RR") same)
  | inr e ↦ inl e
]

planificar-Bien : (k : Kernel) → IsListo k → Bien (planificar k)
unfolding planificar
planificar-Bien k v = elim (no_vrr k.algoritmo_planificacion) [
  | inl e ↦ ground (arith, stl_fifo-Bien k v e, stl_rr-Bien k v e, e, v)
  | inr (f, r) ↦ ground (arith, stl_vrr-Bien k v, f, r, v)
]

replanificar-IsListo :
    (g : ℤ) (p : Pcb) (k : Kernel) → IsListo k → Tras IsListo (replanificar g p k)
unfolding replanificar
replanificar-IsListo g p k v =
    grind (arith, desalojar-IsListo g p k v, λ (q : Pcb) (k' : Kernel). cargar_ready-IsListo q k')

terminar-IsListo : (g : ℤ) (p : Pcb) (k : Kernel) → IsListo k → Tras IsListo (terminar g p k)
unfolding terminar
terminar-IsListo g p k v = grind (arith, desalojar-IsListo g p k v, lts_ex-IsListo)

sin_memoria-IsListo : (p : Pcb) (k : Kernel) → IsListo k → Tras IsListo (sin_memoria p k)
unfolding sin_memoria
sin_memoria-IsListo p k v = ground (arith, lts_ex-IsListo p exec k v)

interrumpio-IsListo :
    (g : ℤ) (p : Pcb) (k : Kernel) → IsListo k → Tras IsListo (atender_interrumpio g p k)
unfolding atender_interrumpio
interrumpio-IsListo g p k v = ground (
  arith,
  sin_memoria-IsListo p k v,
  replanificar-IsListo g p (record k { bool_interrumpi = false })
      (record { cuenta = v.cuenta; sin_priori = v.sin_priori }),
)

cpu-IsListo : (g : ℤ) (q : PaqueteCpu) (k : Kernel) → IsListo k → Tras IsListo (atender_cpu g q k)
unfolding atender_cpu
cpu-IsListo g confirmar_exec k v = record { cuenta = v.cuenta; sin_priori = v.sin_priori }
cpu-IsListo g (interrumpio_proceso p) k v = interrumpio-IsListo g p k v
cpu-IsListo g (error_out_of_memory p) k v =
    desalojar_nulo-IsListo _ (record { cuenta = v.cuenta; sin_priori = v.sin_priori })
cpu-IsListo g (wait p n) k v =
    atender_wait-IsListo g p n _ (record { cuenta = v.cuenta; sin_priori = v.sin_priori })
cpu-IsListo g (signal p n) k v = atender_signal-IsListo g p n k v
cpu-IsListo g (termino_ejecucion p) k v = terminar-IsListo g p k v

bajar-IsListo : (n : ℕ) (k : Kernel) → IsListo k → Tras IsListo (bajar_de n k)
unfolding bajar_de
bajar-IsListo zero k v = tt
bajar-IsListo (suc n) k v =
    Tras-map IsListo IsListo (esperar_grado k.sem_gm_actual k)
      (λ k'. sigue (record k' { por_bajar = n }))
      (λ k' w. record { cuenta = w.cuenta; sin_priori = w.sin_priori })
      (esperar_grado-IsListo k.sem_gm_actual k v)

subir-IsListo : (n : ℕ) (k : Kernel) → IsListo k → IsListo (subir_grado n k)
unfolding subir_grado
subir-IsListo zero k v = v
subir-IsListo (suc n) k v =
    subir-IsListo n _ (record { cuenta = v.cuenta; sin_priori = v.sin_priori })

multi-IsListo : (n : ℤ) (k : Kernel) → IsListo k → Tras IsListo (modificar_multiprogramacion n k)
unfolding modificar_multiprogramacion
multi-IsListo n k v = ground (arith, v, subir-IsListo (pos_part (n -ℤ k.grado_multiprog)) k v)

confirmado-IsListo :
    (f : Fase) (n : ℕ) (k : Kernel) → k.fase ≡ f → IsListo k → Tras IsListo (recibir_exec f n k)
unfolding recibir_exec
confirmado-IsListo f n k e v = ground (arith, ap unidades e, v.cuenta)

pub paso-IsListo : (e : Evento) (k : Kernel) → IsListo k → Tras IsListo (paso e k)
unfolding paso iniciar_proceso bajar_grado stl_confirmado manejar_quantum detener_planificacion
    iniciar_planificacion
paso-IsListo (proceso_nuevo path) k v = record { cuenta = v.cuenta; sin_priori = v.sin_priori }
paso-IsListo (de_memoria q) k v = memoria-IsListo q k v
paso-IsListo (de_cpu g q) k v = cpu-IsListo g q k v
paso-IsListo planifica k v = (planificar-Bien k v).0
paso-IsListo confirmado k v = confirmado-IsListo k.fase k.sem_recibir_exec k refl v
paso-IsListo fin_de_quantum k v = ground (arith, v.cuenta)
paso-IsListo detiene k v = record { cuenta = v.cuenta; sin_priori = v.sin_priori }
paso-IsListo baja_grado k v = bajar-IsListo k.por_bajar k v
paso-IsListo reanuda k v = record { cuenta = v.cuenta; sin_priori = v.sin_priori }
paso-IsListo (multiprogramacion n) k v = multi-IsListo n k v

-- In every state that the modelled events lead to, each step of the scheduler between two waits
-- one of them, from one where it holds, the value of sem_cont_ready and the unit that the
-- scheduler holds while it waits for the CPU are together the number of processes in the two ready
-- queues, and the queue with priority is empty unless the algorithm is VRR.
pub Alcanza-IsListo : {k k' : Kernel} → IsListo k → Alcanza k k' → IsListo k'
Alcanza-IsListo v inicio = v
Alcanza-IsListo v (tras {a = a} e r h) =
    subst (Tras IsListo) h (paso-IsListo e a (Alcanza-IsListo v r))

-- In no state that the modelled events lead to from one with the count right does a step of FIFO,
-- RR or VRR read through the head of an empty queue, also where scheduling was stopped, or other
-- processes came, while the scheduler held its unit.
pub planificar-ne-fallo : {k k' : Kernel} → IsListo k → Alcanza k k' → planificar k' ≢ fallo
planificar-ne-fallo {k' = k'} v r = (planificar-Bien k' (Alcanza-IsListo v r)).1
