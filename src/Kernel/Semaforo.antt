-- ===== src/Kernel/Semaforo.antt =====
-- recursos.c: what a WAIT and a SIGNAL do to the process that calls and to those that wait.
use tp_sistemas_operativos_c.Common.{
  ℕ, ◌+◌, ◌≡◌, refl, String, true, false, List, [], ◌∷◌, ◌++◌, Option, none, some, arith, keep,
  if◌then◌else◌, ℤ, pos, negsuc, ◌+ℤ◌, ◌≤ℤ◌, ltb_ℤ, +ℤ_parts, get, put, nat_eq, string_eq,
  Bool-cases, inl, inr,
}
use tp_sistemas_operativos_c.Utils.Pcb.{Pcb, ready}
use tp_sistemas_operativos_c.Kernel.Estado.{
  Kernel, Recurso, RecList, ListaRec, viva, liberada, es_vrr, exec_proceso, rec, sigue, ◌>>=◌,
}
use tp_sistemas_operativos_c.Kernel.Colas.{
  cargar_desbloqueado, cargar_ready_lem, cargar_ready_priori_lem, delete_queue_blocked,
  delete_queue_blocked_lem, add_queue_blocked, otro_pid,
}
use tp_sistemas_operativos_c.Kernel.Recursos.{guardar, una_mas, desbloquear, despertar}
use tp_sistemas_operativos_c.Kernel.Recursos.Registro.{
  nueva, guardar_lista, anotar_wait, anotar_signal, wait_de, signal_de, modificar_wait_dic_rec,
  modificar_signal_dic_rec,
}
use tp_sistemas_operativos_c.Kernel.Fin.{enviar}
use tp_sistemas_operativos_c.Kernel.Fin.Leyes.{desalojo, tras_desalojo, desalojar_lem, sin_exec}
use tp_sistemas_operativos_c.Kernel.Syscalls.{
  una_menos, bloquear_por, wait_a, atender_wait, atender_signal, atender_signal_a,
}

-- The ledger of the process after a WAIT; a process whose list was destroyed has none.
abbrev pub lista_wait : String → Option ListaRec → Option (List RecList)
lista_wait m none = some (nueva m ∷ [])
lista_wait m (some (viva l)) = some (anotar_wait m l)
lista_wait m (some liberada) = none

wait_de-lista :
    (o : Option ListaRec) (pid : ℕ) (m : String) (l : List RecList) (k : Kernel)
    → lista_wait m o ≡ some l
    → wait_de o pid m k ≡ sigue (guardar_lista pid l k)
unfolding wait_de
wait_de-lista none pid m l k h = ground arith
wait_de-lista (some (viva x)) pid m l k h = ground arith
wait_de-lista (some liberada) pid m l k h = cc

-- With an instance free, a process whose list was not destroyed gets it and goes on: it is sent
-- back to the CPU.
pub wait_concede :
    (g : ℤ) (p : Pcb) (m : String) (r : Recurso) (l : List RecList) (k : Kernel)
    → get m k.diccionario_recursos ≡ some r
    → lista_wait m (get p.pid k.rec_por_pid_dic) ≡ some l
    → pos 1 ≤ℤ r.instancias_recurso
    → atender_wait g p m k
      ≡ sigue (enviar (exec_proceso p) (guardar_lista p.pid l (guardar m (una_menos r) k)))
unfolding atender_wait wait_a modificar_wait_dic_rec
wait_concede g p m r l k h hl c =
    rw (h, wait_de-lista (get p.pid k.rec_por_pid_dic) p.pid m l (guardar m (una_menos r) k) hl)
      (ground (arith, +ℤ_parts r.instancias_recurso (negsuc 0)))

-- The state in which a WAIT that blocks leaves the kernel, with `es` what is left to run.
abbrev pub bloqueado : ℤ → Pcb → String → Recurso → List RecList → List Pcb → Kernel → Kernel
bloqueado g p m r l es k =
    let p' = tras_desalojo g p k in
    record k {
      diccionario_recursos =
          put m
            (record {
              instancias_recurso = r.instancias_recurso +ℤ negsuc 0;
              cola_blocked_recurso = r.cola_blocked_recurso ++ (p' ∷ []);
            })
            (put m (una_menos r) k.diccionario_recursos);
      rec_por_pid_dic = put p.pid (viva l) k.rec_por_pid_dic;
      cola_exec = es;
      cpu_libre = true;
      hilo_quantum = (sin_exec es k).hilo_quantum;
      cola_blocked = k.cola_blocked ++ (record { pcb = p'; tipo = rec; key = m } ∷ []);
    }

bloqueo_lem :
    (xs : List Pcb) (e : Pcb) (es : List Pcb) (g : ℤ) (p : Pcb) (m : String) (r : Recurso)
    (k : Kernel)
    → xs ≡ e ∷ es
    → (desalojo xs g p k >>= λ s. sigue (
        add_queue_blocked s.0 rec m (
          guardar m
            (record r { cola_blocked_recurso = r.cola_blocked_recurso ++ (s.0 ∷ []) })
            s.1)))
      ≡ sigue (
          add_queue_blocked (tras_desalojo g p k) rec m (
            guardar m
              (record r {
                cola_blocked_recurso = r.cola_blocked_recurso ++ (tras_desalojo g p k ∷ []);
              })
              (sin_exec es k)))
bloqueo_lem xs e es g p m r k h = rw h

-- With none free, a process whose list was not destroyed leaves the CPU, where a process is, and
-- is the last in the queue of the resource and in that of the blocked processes; the CPU is free.
pub wait_bloquea :
    (g : ℤ) (p e : Pcb) (m : String) (r : Recurso) (l : List RecList) (es : List Pcb) (k : Kernel)
    → get m k.diccionario_recursos ≡ some r
    → lista_wait m (get p.pid k.rec_por_pid_dic) ≡ some l
    → r.instancias_recurso ≤ℤ pos 0
    → k.cola_exec ≡ e ∷ es
    → atender_wait g p m k ≡ sigue (bloqueado g p m r l es k)
unfolding atender_wait wait_a modificar_wait_dic_rec bloquear_por add_queue_blocked
wait_bloquea g p e m r l es k h hl c x =
    rw (h, wait_de-lista (get p.pid k.rec_por_pid_dic) p.pid m l k1 hl, menos) bloqueo
  where
    k1 : Kernel
    k1 = guardar m (una_menos r) k

    menos : ltb_ℤ (una_menos r).instancias_recurso (pos 0) ≡ true
    menos = ground (arith, +ℤ_parts r.instancias_recurso (negsuc 0))

    bloqueo :
        bloquear_por g p m (una_menos r) (guardar_lista p.pid l k1)
        ≡ sigue (bloqueado g p m r l es k)
    bloqueo =
        let k2 = guardar_lista p.pid l k1 in
        rw (desalojar_lem g p k2) (bloqueo_lem k.cola_exec e es g p m (una_menos r) k2 x)

-- The state after the ledger has noted a SIGNAL of a process that has a list.
abbrev pub anotado_signal : Pcb → String → Recurso → List RecList → Kernel → Kernel
anotado_signal p m r l k = guardar_lista p.pid (anotar_signal m l) (guardar m (una_mas r) k)

-- The queue that an unblocked process goes to, and the one that is left alone.
abbrev pub cola_de_vuelta : Kernel → List Pcb
cola_de_vuelta k = if es_vrr k then k.cola_ready_priori else k.cola_ready

abbrev pub cola_de_lado : Kernel → List Pcb
cola_de_lado k = if es_vrr k then k.cola_ready else k.cola_ready_priori

pub record Despertado (q0 : Pcb) (k k' : Kernel) : Type 0 where
  pub vuelve : cola_de_vuelta k' ≡ cola_de_vuelta k ++ (record q0 { estado = ready } ∷ [])
  pub de_lado : cola_de_lado k' ≡ cola_de_lado k
  pub contado : k'.sem_cont_ready ≡ k.sem_cont_ready + 1
  pub sin_bloqueo : k'.cola_blocked ≡ keep (otro_pid q0.pid) k.cola_blocked
  pub recursos_iguales : k'.diccionario_recursos ≡ k.diccionario_recursos

cargar-Despertado :
    (q0 : Pcb) (k : Kernel) → Despertado q0 k (cargar_desbloqueado q0 (delete_queue_blocked q0 k))
unfolding cargar_desbloqueado
cargar-Despertado q0 k = rw (delete_queue_blocked_lem q0 k) (elim (Bool-cases (es_vrr k)) [
  | inl e ↦ rw e (
      rw
        (cargar_ready_priori_lem q0
          (record k { cola_blocked = keep (otro_pid q0.pid) k.cola_blocked }))
        (record {
          vuelve = rw e;
          de_lado = rw e;
          contado = refl;
          sin_bloqueo = refl;
          recursos_iguales = refl;
        }))
  | inr e ↦ rw e (
      rw (cargar_ready_lem q0 (record k { cola_blocked = keep (otro_pid q0.pid) k.cola_blocked }))
        (record {
          vuelve = rw e;
          de_lado = rw e;
          contado = refl;
          sin_bloqueo = refl;
          recursos_iguales = refl;
        }))
])

-- From -1 on, a SIGNAL of a process with a list wakes the process that has waited longest, if one waits: it leaves the two
-- queues in which it waited for the end of its ready queue, under VRR the one with priority.
pub signal_despierta :
    (g : ℤ) (p q0 : Pcb) (m : String) (r : Recurso) (qs : List Pcb) (l : List RecList) (k : Kernel)
    → get m k.diccionario_recursos ≡ some r
    → get p.pid k.rec_por_pid_dic ≡ some (viva l)
    → negsuc 0 ≤ℤ r.instancias_recurso
    → r.cola_blocked_recurso ≡ q0 ∷ qs
    → (k' : Kernel) × (atender_signal g p m k ≡ sigue k')
      × Despertado q0
          (guardar m (record (una_mas r) { cola_blocked_recurso = qs }) (anotado_signal p m r l k))
          k'
unfolding atender_signal atender_signal_a modificar_signal_dic_rec signal_de desbloquear despertar
signal_despierta g p q0 m r qs l k h hl c q = (
  enviar (exec_proceso p) k2,
  rw (h, hl, menos, q),
  record {
    vuelve = d.vuelve;
    de_lado = d.de_lado;
    contado = d.contado;
    sin_bloqueo = d.sin_bloqueo;
    recursos_iguales = d.recursos_iguales;
  },
)
  where
    menos : ltb_ℤ (una_mas r).instancias_recurso (pos 0) ≡ false
    menos = ground (arith, +ℤ_parts r.instancias_recurso (pos 1))

    k1 : Kernel
    k1 = guardar m (record (una_mas r) { cola_blocked_recurso = qs }) (anotado_signal p m r l k)

    k2 : Kernel
    k2 = cargar_desbloqueado q0 (delete_queue_blocked q0 k1)

    d : Despertado q0 k1 k2
    d = cargar-Despertado q0 k1
