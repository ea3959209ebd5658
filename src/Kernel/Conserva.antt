-- ===== src/Kernel/Conserva.antt =====
-- recursos.c: no WAIT and no SIGNAL of what a process holds makes or loses an instance.
use tp_sistemas_operativos_c.Common.{
  ℕ, ◌≡◌, refl, ap, sym, ◌∙◌, String, str_eq, eq_iff, List, [], ◌∷◌, ◌++◌, Option, none, some,
  if◌then◌else◌, ℤ, pos, pos_part, neg_part, ◌+ℤ◌, ◌-ℤ◌, ltb_ℤ, int_laws, get, get-put,
  get-put_self, nat_eq, string_eq, Bool-cases, inl, inr,
}
use tp_sistemas_operativos_c.Utils.Pcb.{Pcb}
use tp_sistemas_operativos_c.Kernel.Estado.{
  Kernel, Recurso, RecList, ListaRec, viva, liberada, es_vrr, exec_proceso, rec, Resultado, sigue,
  espera, fallo, ◌>>=◌,
}
use tp_sistemas_operativos_c.Kernel.Colas.{
  cargar_desbloqueado, cargar_ready, cargar_ready_priori, delete_queue_blocked, add_queue_blocked,
}
use tp_sistemas_operativos_c.Kernel.Recursos.{guardar, una_mas, desbloquear, despertar}
use tp_sistemas_operativos_c.Kernel.Recursos.Registro.{
  guardar_lista, nueva, buscar_recurso, anotar_wait, anotar_signal, wait_de, signal_de,
  modificar_wait_dic_rec, modificar_signal_dic_rec,
}
use tp_sistemas_operativos_c.Kernel.Fin.{enviar}
use tp_sistemas_operativos_c.Kernel.Fin.Leyes.{desalojo, tras_desalojo, desalojar_lem}
use tp_sistemas_operativos_c.Kernel.Syscalls.{
  una_menos, bloquear_por, wait_a, atender_wait, atender_signal, atender_signal_a,
}
use tp_sistemas_operativos_c.Kernel.Listos.{Tras, Tras-map}
use tp_sistemas_operativos_c.Kernel.Libro.{
  uno_si, total, tiene-anotar_wait, tiene-anotar_signal, asignadas-put_new, asignadas-put_old,
  tiene-nueva,
}

cargar_desbloqueado-total :
    (n : String) (p : Pcb) (k : Kernel) → total n (cargar_desbloqueado p k) ≡ total n k
unfolding cargar_desbloqueado cargar_ready cargar_ready_priori
cargar_desbloqueado-total n p k = elim (Bool-cases (es_vrr k)) [ inl e ↦ rw e | inr e ↦ rw e ]

-- Writing the resource back moves the total of its name by the change of its instances.
guardar-total :
    (m n : String) (r r' : Recurso) (k : Kernel)
    → get m k.diccionario_recursos ≡ some r
    → total n (guardar m r' k) +ℤ (if str_eq m n then r.instancias_recurso else pos 0)
      ≡ total n k +ℤ (if str_eq m n then r'.instancias_recurso else pos 0)
guardar-total m n r r' k h =
    rw (get-put m n r' k.diccionario_recursos) (elim (Bool-cases (str_eq m n)) [
      | inl e ↦
          let same : get n k.diccionario_recursos ≡ some r =
            ap (λ s. get s k.diccionario_recursos) (sym ((eq_iff m n).0 e)) ∙ h in
          rw (e, same) (omega int_laws)
      | inr e ↦ rw e
    ])

wait_de-total :
    (o : Option ListaRec) (pid : ℕ) (m n : String) (k : Kernel)
    → get pid k.rec_por_pid_dic ≡ o
    → Tras (λ k'. total n k' ≡ total n k +ℤ uno_si m n) (wait_de o pid m k)
unfolding wait_de
wait_de-total none pid m n k h =
    rw (asignadas-put_new n pid (viva (nueva m ∷ [])) k.rec_por_pid_dic h, tiene-nueva m n)
      (omega int_laws)
wait_de-total (some (viva l)) pid m n k h =
    let e = asignadas-put_old n pid (viva (anotar_wait m l)) (viva l) k.rec_por_pid_dic h in
    let t = tiene-anotar_wait m n l in
    omega (int_laws, ap pos_part e, ap neg_part e, ap pos_part t, ap neg_part t)
wait_de-total (some liberada) pid m n k h = tt

signal_de-total :
    (l : List RecList) (i pid : ℕ) (m n : String) (k : Kernel)
    → get pid k.rec_por_pid_dic ≡ some (viva l)
    → buscar_recurso l m ≡ some i
    → Tras (λ k'. total n k' ≡ total n k -ℤ uno_si m n) (signal_de (some (viva l)) pid m k)
unfolding signal_de
signal_de-total l i pid m n k h b =
    let e = asignadas-put_old n pid (viva (anotar_signal m l)) (viva l) k.rec_por_pid_dic h in
    let t = tiene-anotar_signal m n l i b in
    omega (int_laws, ap pos_part e, ap neg_part e, ap pos_part t, ap neg_part t)

-- Writing back a record with the same instances keeps every total.
guardar_igual-total :
    (m n : String) (r : Recurso) (q : List Pcb) (k : Kernel)
    → get m k.diccionario_recursos ≡ some r
    → total n (guardar m (record r { cola_blocked_recurso = q }) k) ≡ total n k
guardar_igual-total m n r q k h =
    let e = guardar-total m n r (record r { cola_blocked_recurso = q }) k h in
    omega (int_laws, ap pos_part e, ap neg_part e)

despertar-total :
    (q : List Pcb) (m n : String) (r : Recurso) (k : Kernel)
    → get m k.diccionario_recursos ≡ some r
    → total n (despertar q m r k) ≡ total n k
unfolding despertar delete_queue_blocked
despertar-total [] m n r k h = guardar_igual-total m n r r.cola_blocked_recurso k h
despertar-total (p ∷ q) m n r k h =
    cargar_desbloqueado-total n p _ ∙ guardar_igual-total m n r q k h

desbloquear-total :
    (m n : String) (r : Recurso) (k : Kernel)
    → get m k.diccionario_recursos ≡ some r
    → total n (desbloquear m r k) ≡ total n k
unfolding desbloquear
desbloquear-total m n r k h = elim (Bool-cases (ltb_ℤ r.instancias_recurso (pos 0))) [
  | inl e ↦ rw e (guardar_igual-total m n r r.cola_blocked_recurso k h)
  | inr e ↦ rw e (despertar-total r.cola_blocked_recurso m n r k h)
]

bloqueo-total :
    (es : List Pcb) (g : ℤ) (p : Pcb) (m n : String) (r : Recurso) (k : Kernel)
    → get m k.diccionario_recursos ≡ some r
    → Tras
        (λ k'. total n k' ≡ total n k)
        (desalojo es g p k >>= λ s. sigue (
          add_queue_blocked s.0 rec m (
            guardar m
              (record r { cola_blocked_recurso = r.cola_blocked_recurso ++ (s.0 ∷ []) })
              s.1)))
unfolding add_queue_blocked
bloqueo-total [] g p m n r k h = tt
bloqueo-total (e ∷ es) g p m n r k h =
    guardar_igual-total m n r (r.cola_blocked_recurso ++ (tras_desalojo g p k ∷ [])) k h

bloquear_por-total :
    (g : ℤ) (p : Pcb) (m n : String) (r : Recurso) (k : Kernel)
    → get m k.diccionario_recursos ≡ some r
    → Tras (λ k'. total n k' ≡ total n k) (bloquear_por g p m r k)
unfolding bloquear_por
bloquear_por-total g p m n r k h =
    rw (desalojar_lem g p k) (bloqueo-total k.cola_exec g p m n r k h)

wait_de-dic :
    (o : Option ListaRec) (pid : ℕ) (m : String) (k : Kernel)
    → Tras (λ k'. k'.diccionario_recursos ≡ k.diccionario_recursos) (wait_de o pid m k)
unfolding wait_de
wait_de-dic none pid m k = refl
wait_de-dic (some (viva l)) pid m k = refl
wait_de-dic (some liberada) pid m k = tt

Tras-and :
    (P Q : Kernel → Type 0) (m : Resultado Kernel) → Tras P m → Tras Q m → Tras (λ k. P k × Q k) m
Tras-and P Q (sigue k) p q = (p, q)
Tras-and P Q espera p q = tt
Tras-and P Q fallo p q = tt

guardar_menos :
    (m n : String) (r : Recurso) (k : Kernel)
    → get m k.diccionario_recursos ≡ some r
    → total n (guardar m (una_menos r) k) +ℤ uno_si m n ≡ total n k
guardar_menos m n r k h = elim (Bool-cases (str_eq m n)) [
  | inl e ↦
      let q = guardar-total m n r (una_menos r) k h in
      let q' = rw e at q in rw e (omega (int_laws, ap pos_part q', ap neg_part q'))
  | inr e ↦
      let q = guardar-total m n r (una_menos r) k h in
      let q' = rw e at q in rw e (omega (int_laws, ap pos_part q', ap neg_part q'))
]

guardar_mas :
    (m n : String) (r : Recurso) (k : Kernel)
    → get m k.diccionario_recursos ≡ some r
    → total n (guardar m (una_mas r) k) ≡ total n k +ℤ uno_si m n
guardar_mas m n r k h = elim (Bool-cases (str_eq m n)) [
  | inl e ↦
      let q = guardar-total m n r (una_mas r) k h in
      let q' = rw e at q in rw e (omega (int_laws, ap pos_part q', ap neg_part q'))
  | inr e ↦
      let q = guardar-total m n r (una_mas r) k h in
      let q' = rw e at q in rw e (omega (int_laws, ap pos_part q', ap neg_part q'))
]

-- After the ledger has noted a WAIT: the total of `n`, and the resources as they were.
abbrev Anotado : String → ℤ → Kernel → Kernel → Type 0
Anotado n d k k' =
    (total n k' ≡ total n k +ℤ d) × (k'.diccionario_recursos ≡ k.diccionario_recursos)

Tras-cambio :
    (n : String) (t t' : ℤ)
    → t ≡ t'
    → (m : Resultado Kernel) → Tras (λ k. total n k ≡ t) m
    → Tras (λ k. total n k ≡ t') m
Tras-cambio n t t' e (sigue k) h = h ∙ e
Tras-cambio n t t' e espera h = tt
Tras-cambio n t t' e fallo h = tt

module _ (g : ℤ) (p : Pcb) (m n : String) (r : Recurso) (k : Kernel) where
  wait_seguir : Kernel → Resultado Kernel
  wait_seguir k' =
      if ltb_ℤ (una_menos r).instancias_recurso (pos 0)
      then bloquear_por g p m (una_menos r) k'
      else sigue (enviar (exec_proceso p) k')

  wait_seguir-total :
      (k' : Kernel)
      → get m k'.diccionario_recursos ≡ some (una_menos r)
      → Tras (λ k2. total n k2 ≡ total n k') (wait_seguir k')
  unfolding wait_seguir
  wait_seguir-total k' h = elim (Bool-cases (ltb_ℤ (una_menos r).instancias_recurso (pos 0))) [
    | inl e ↦ rw e (bloquear_por-total g p m n (una_menos r) k' h)
    | inr e ↦ rw e
  ]

  wait_total :
      get m k.diccionario_recursos ≡ some r
      → Tras
          (λ k'. total n k' ≡ total n k)
          (wait_de (get p.pid k.rec_por_pid_dic) p.pid m (guardar m (una_menos r) k)
            >>= wait_seguir)
  wait_total h =
      let k1 = guardar m (una_menos r) k in
      let o = get p.pid k.rec_por_pid_dic in
      Tras-map (Anotado n (uno_si m n) k1) (λ k'. total n k' ≡ total n k) (wait_de o p.pid m k1)
        wait_seguir
        (λ k' a.
          Tras-cambio n (total n k') (total n k) (a.0 ∙ guardar_menos m n r k h) (wait_seguir k') (
            wait_seguir-total k'
              (ap (get m) (a.1) ∙ get-put_self m (una_menos r) k.diccionario_recursos)))
        (Tras-and (λ k'. total n k' ≡ total n k1 +ℤ uno_si m n)
          (λ k'. k'.diccionario_recursos ≡ k1.diccionario_recursos) (wait_de o p.pid m k1)
          (wait_de-total o p.pid m n k1 refl) (wait_de-dic o p.pid m k1))

-- A WAIT moves an instance from the resource to the process, whether it blocks or not.
pub atender_wait-total :
    (g : ℤ) (p : Pcb) (m n : String) (r : Recurso) (k : Kernel)
    → get m k.diccionario_recursos ≡ some r
    → Tras (λ k'. total n k' ≡ total n k) (atender_wait g p m k)
unfolding atender_wait wait_a modificar_wait_dic_rec wait_seguir
atender_wait-total g p m n r k h = rw h (wait_total g p m n r k h)

quita : (t d b c : ℤ) → b ≡ t +ℤ d → c ≡ b -ℤ d → c ≡ t
quita t d b c e e' = omega (int_laws, ap pos_part e, ap neg_part e, ap pos_part e', ap neg_part e')

-- A SIGNAL by a process that holds the resource moves an instance back, and wakes with no loss.
pub atender_signal-total :
    (g : ℤ) (p : Pcb) (m n : String) (r : Recurso) (l : List RecList) (i : ℕ) (k : Kernel)
    → get m k.diccionario_recursos ≡ some r
    → get p.pid k.rec_por_pid_dic ≡ some (viva l)
    → buscar_recurso l m ≡ some i
    → Tras (λ k'. total n k' ≡ total n k) (atender_signal g p m k)
unfolding atender_signal atender_signal_a modificar_signal_dic_rec signal_de
atender_signal-total g p m n r l i k h hl b =
    rw (h, hl)
      (desbloquear-total m n (una_mas r) (guardar_lista p.pid (anotar_signal m l) k1)
          (get-put_self m (una_mas r) k.diccionario_recursos)
        ∙ quita (total n k) (uno_si m n) (total n k1)
            (total n (guardar_lista p.pid (anotar_signal m l) k1)) (guardar_mas m n r k h)
            (signal_de-total l i p.pid m n k1 hl b))
  where
    k1 : Kernel
    k1 = guardar m (una_mas r) k
