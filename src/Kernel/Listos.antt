-- ===== src/Kernel/Listos.antt =====
-- planificacion.c, recursos.c, espera.c: the semaphore `sem_cont_ready` against the queues of ready
-- processes that it counts.
use tp_sistemas_operativos_c.Common.{
  ℕ, zero, suc, ◌+◌, ◌≡◌, refl, false, String, Option, none, some, List, [], ◌∷◌, arith, length,
  length-append, ℤ, pos_part, get, string_eq, nat_eq, Bool-cases, inl, inr, if◌then◌else◌,
}
use tp_sistemas_operativos_c.Utils.Pcb.{Pcb, ProcesoEstado, new}
use tp_sistemas_operativos_c.Kernel.Estado.{
  Kernel, Recurso, RecList, ListaRec, viva, liberada, unidades, es_vrr, es_rr, exec_proceso,
  Resultado, sigue, espera, fallo, ◌>>=◌,
}
use tp_sistemas_operativos_c.Kernel.Colas.{
  cargar_ready, cargar_ready_lem, cargar_ready_priori_lem, delete_queue_blocked_lem,
  cargar_desbloqueado, add_queue_blocked,
}
use tp_sistemas_operativos_c.Kernel.Recursos.{
  guardar, una_mas, desbloquear, despertar, signal_a, signal_por_fin, liberar_lista,
  liberar_instancias, recorrer_liberar_rec, modificar_fin_proc_dic_rec,
}
use tp_sistemas_operativos_c.Kernel.Recursos.Registro.{
  modificar_wait_dic_rec, modificar_signal_dic_rec, wait_de, signal_de,
}
use tp_sistemas_operativos_c.Kernel.Fin.{
  enviar, hilo_cancelado, devolver_grado, lts_ex, soltar_de, soltar_cpu, desalojar, desalojar_nulo,
}
use tp_sistemas_operativos_c.Kernel.Syscalls.{
  una_menos, bloquear_por, recurso_invalido, wait_a, atender_signal_a, atender_wait, atender_signal,
}

-- What holds of the state in which a handler ends, if it ends.
abbrev pub Tras : (Kernel → Type 0) → Resultado Kernel → Type 0
Tras P (sigue k) = P k
Tras P espera = Unit
Tras P fallo = Unit

pub Tras-bind :
    {A : Type 0} (P : Kernel → Type 0) (m : Resultado A) (f : A → Resultado Kernel)
    → ((a : A) → m ≡ sigue a → Tras P (f a))
    → Tras P (m >>= f)
Tras-bind P (sigue a) f h = h a refl
Tras-bind P espera f h = tt
Tras-bind P fallo f h = tt

pub Tras-map :
    (P Q : Kernel → Type 0) (m : Resultado Kernel) (f : Kernel → Resultado Kernel)
    → ((k : Kernel) → P k → Tras Q (f k))
    → Tras P m
    → Tras Q (m >>= f)
Tras-map P Q (sigue k) f h p = h k p
Tras-map P Q espera f h p = tt
Tras-map P Q fallo f h p = tt

-- The semaphore, with the unit that the scheduler holds, counts the ready processes, and only VRR uses the queue with priority.
pub record IsListo (k : Kernel) : Type 0 where
  pub cuenta : k.sem_cont_ready + unidades k.fase ≡ length k.cola_ready + length k.cola_ready_priori
  pub sin_priori : es_vrr k ≡ false → k.cola_ready_priori ≡ []

pub cargar_ready-IsListo : (p : Pcb) (k : Kernel) → IsListo k → IsListo (cargar_ready p k)
cargar_ready-IsListo p k v = rw (cargar_ready_lem p k) (record {
  cuenta = omega (arith, length-append k.cola_ready (record p { estado = _ } ∷ []), v.cuenta);
  sin_priori = v.sin_priori;
})

pub cargar_desbloqueado-IsListo :
    (p : Pcb) (k : Kernel) → IsListo k → IsListo (cargar_desbloqueado p k)
unfolding cargar_desbloqueado
cargar_desbloqueado-IsListo p k v = elim (Bool-cases (es_vrr k)) [
  | inl vrr ↦ rw vrr (
      rw (cargar_ready_priori_lem p k) (record {
        cuenta =
            omega
              (arith, length-append k.cola_ready_priori (record p { estado = _ } ∷ []), v.cuenta);
        sin_priori = λ h. cc;
      }))
  | inr h ↦ rw h (cargar_ready-IsListo p k v)
]

despertar-IsListo :
    (q : List Pcb) (n : String) (r : Recurso) (k : Kernel) → IsListo k → IsListo (despertar q n r k)
unfolding despertar
despertar-IsListo [] n r k v = record { cuenta = v.cuenta; sin_priori = v.sin_priori }
despertar-IsListo (p ∷ q) n r k v =
    cargar_desbloqueado-IsListo p _
      (rw (delete_queue_blocked_lem p _) (record { cuenta = v.cuenta; sin_priori = v.sin_priori }))

desbloquear-IsListo :
    (n : String) (r : Recurso) (k : Kernel) → IsListo k → IsListo (desbloquear n r k)
unfolding desbloquear
desbloquear-IsListo n r k v = ground (arith, despertar-IsListo r.cola_blocked_recurso n r k v)

signal_a-IsListo :
    (o : Option Recurso) (n : String) (k : Kernel) → IsListo k → IsListo (signal_a o n k)
unfolding signal_a
signal_a-IsListo none n k v = v
signal_a-IsListo (some r) n k v = desbloquear-IsListo n _ k v

liberar_instancias-IsListo :
    (m : ℕ) (n : String) (k : Kernel) → IsListo k → IsListo (liberar_instancias m n k)
unfolding liberar_instancias signal_por_fin
liberar_instancias-IsListo zero n k v = v
liberar_instancias-IsListo (suc m) n k v =
    liberar_instancias-IsListo m n (signal_por_fin n k) (signal_a-IsListo _ n k v)

recorrer_liberar_rec-IsListo :
    (rs : List RecList) (k : Kernel) → IsListo k → IsListo (recorrer_liberar_rec rs k)
unfolding recorrer_liberar_rec
recorrer_liberar_rec-IsListo [] k v = v
recorrer_liberar_rec-IsListo (r ∷ rs) k v =
    recorrer_liberar_rec-IsListo rs _
      (liberar_instancias-IsListo (pos_part r.instancias_recurso) r.nombre_recurso k v)

liberar_lista-IsListo :
    (o : Option ListaRec) (pid : ℕ) (k : Kernel) → IsListo k → Tras IsListo (liberar_lista o pid k)
unfolding liberar_lista
liberar_lista-IsListo none pid k v = v
liberar_lista-IsListo (some (viva l)) pid k v =
    let v' = recorrer_liberar_rec-IsListo l k v in
    record { cuenta = v'.cuenta; sin_priori = v'.sin_priori }
liberar_lista-IsListo (some liberada) pid k v = tt

devolver_grado-IsListo : (e : ProcesoEstado) (k : Kernel) → IsListo k → IsListo (devolver_grado e k)
unfolding devolver_grado
devolver_grado-IsListo new k v = v
devolver_grado-IsListo _ k v = record { cuenta = v.cuenta; sin_priori = v.sin_priori }

fin_proc-IsListo :
    (pid : ℕ) (k : Kernel) → IsListo k → Tras IsListo (modificar_fin_proc_dic_rec pid k)
unfolding modificar_fin_proc_dic_rec
fin_proc-IsListo pid k v = liberar_lista-IsListo (get pid k.rec_por_pid_dic) pid k v

pub lts_ex-IsListo :
    (p : Pcb) (e : ProcesoEstado) (k : Kernel) → IsListo k → Tras IsListo (lts_ex p e k)
unfolding lts_ex
lts_ex-IsListo p e k v =
    ground (arith, fin_proc-IsListo p.pid (devolver_grado e k) (devolver_grado-IsListo e k v))

soltar_de-IsListo : (q : List Pcb) (k : Kernel) → IsListo k → Tras IsListo (soltar_de q k)
unfolding soltar_de
soltar_de-IsListo [] k v = tt
soltar_de-IsListo (p ∷ q) k v = record { cuenta = v.cuenta; sin_priori = v.sin_priori }

abbrev pub TrasPcb : Resultado (Pcb × Kernel) → Type 0
TrasPcb (sigue s) = IsListo s.1
TrasPcb espera = Unit
TrasPcb fallo = Unit

pub desalojar-IsListo : (g : ℤ) (p : Pcb) (k : Kernel) → IsListo k → TrasPcb (desalojar g p k)
unfolding desalojar soltar_cpu
desalojar-IsListo g p k v = ground (
  arith,
  soltar_de-IsListo k.cola_exec (record k { hilo_quantum = hilo_cancelado k })
      (record { cuenta = v.cuenta; sin_priori = v.sin_priori }),
)

recurso_invalido-IsListo :
    (g : ℤ) (p : Pcb) (k : Kernel) → IsListo k → Tras IsListo (recurso_invalido g p k)
unfolding recurso_invalido
recurso_invalido-IsListo g p k v = grind (arith, desalojar-IsListo g p k v, lts_ex-IsListo)

bloquear_por-IsListo :
    (g : ℤ) (p : Pcb) (n : String) (r : Recurso) (k : Kernel)
    → IsListo k
    → Tras IsListo (bloquear_por g p n r k)
unfolding bloquear_por add_queue_blocked
bloquear_por-IsListo g p n r k v = ground (arith, desalojar-IsListo g p k v)

wait_de-IsListo :
    (o : Option ListaRec) (pid : ℕ) (n : String) (k : Kernel)
    → IsListo k
    → Tras IsListo (wait_de o pid n k)
unfolding wait_de
wait_de-IsListo none pid n k v = record { cuenta = v.cuenta; sin_priori = v.sin_priori }
wait_de-IsListo (some (viva l)) pid n k v = record { cuenta = v.cuenta; sin_priori = v.sin_priori }
wait_de-IsListo (some liberada) pid n k v = tt

signal_de-IsListo :
    (o : Option ListaRec) (pid : ℕ) (n : String) (k : Kernel)
    → IsListo k
    → Tras IsListo (signal_de o pid n k)
unfolding signal_de
signal_de-IsListo none pid n k v = v
signal_de-IsListo (some (viva l)) pid n k v = record {
  cuenta = v.cuenta;
  sin_priori = v.sin_priori;
}
signal_de-IsListo (some liberada) pid n k v = tt

wait_a-IsListo :
    (o : Option Recurso) (g : ℤ) (p : Pcb) (n : String) (k : Kernel)
    → IsListo k
    → Tras IsListo (wait_a o g p n k)
unfolding wait_a modificar_wait_dic_rec
wait_a-IsListo none g p n k v = recurso_invalido-IsListo g p k v
wait_a-IsListo (some r) g p n k v =
    let k1 = guardar n (una_menos r) k in
    let o = get p.pid k.rec_por_pid_dic in
    grind (
      arith,
      wait_de-IsListo o p.pid n k1 (record { cuenta = v.cuenta; sin_priori = v.sin_priori }),
      λ (k' : Kernel). bloquear_por-IsListo g p n (una_menos r) k',
    )

signal_a_todos-IsListo :
    (o : Option Recurso) (g : ℤ) (p : Pcb) (n : String) (k : Kernel)
    → IsListo k
    → Tras IsListo (atender_signal_a o g p n k)
unfolding atender_signal_a modificar_signal_dic_rec
signal_a_todos-IsListo none g p n k v = recurso_invalido-IsListo g p k v
signal_a_todos-IsListo (some r) g p n k v =
    let k1 = guardar n (una_mas r) k in
    let o = get p.pid k.rec_por_pid_dic in
    Tras-map IsListo IsListo (signal_de o p.pid n k1)
      (λ k'. sigue (enviar (exec_proceso p) (desbloquear n (una_mas r) k')))
      (λ k' w.
        let w' = desbloquear-IsListo n (una_mas r) k' w in
        record { cuenta = w'.cuenta; sin_priori = w'.sin_priori })
      (signal_de-IsListo o p.pid n k1 (record { cuenta = v.cuenta; sin_priori = v.sin_priori }))

pub atender_wait-IsListo :
    (g : ℤ) (p : Pcb) (n : String) (k : Kernel) → IsListo k → Tras IsListo (atender_wait g p n k)
unfolding atender_wait
atender_wait-IsListo g p n k v = wait_a-IsListo (get n k.diccionario_recursos) g p n k v

pub atender_signal-IsListo :
    (g : ℤ) (p : Pcb) (n : String) (k : Kernel) → IsListo k → Tras IsListo (atender_signal g p n k)
unfolding atender_signal
atender_signal-IsListo g p n k v = signal_a_todos-IsListo (get n k.diccionario_recursos) g p n k v

pub desalojar_nulo-IsListo : (k : Kernel) → IsListo k → Tras IsListo (desalojar_nulo k)
unfolding desalojar_nulo soltar_cpu
desalojar_nulo-IsListo k v = ground (
  arith,
  soltar_de-IsListo k.cola_exec
      (record k { hilo_quantum = if es_rr k then false else k.hilo_quantum })
      (record { cuenta = v.cuenta; sin_priori = v.sin_priori }),
)
