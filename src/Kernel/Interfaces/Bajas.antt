-- ===== src/Kernel/Interfaces/Bajas.antt =====
-- kernel/src/manejoInterfaces.c: an interface that connects or goes, a process that ends while it
-- waits, and the invariant `IsIo`.
use tp_sistemas_operativos_c.Common.{
  ℕ, ◌+◌, ◌≤◌, ◌==◌, ◌≡◌, refl, ap, String, Bool, true, List, [], ◌∷◌, Option, none, some, arith,
  get, remove, string_eq, nat_eq, inl, inr, Bool-cases, Option-cases, keep, rotate-keep,
}
use tp_sistemas_operativos_c.Utils.Pcb.{Pcb, blocked}
use tp_sistemas_operativos_c.Kernel.Colas.{delete_queue_blocked}
use tp_sistemas_operativos_c.Kernel.Recursos.{otro}
use tp_sistemas_operativos_c.Kernel.Fin.{lts_ex}
use tp_sistemas_operativos_c.Kernel.Interfaces.{
  DatosInterfaz, Sistema, agregar_interfaz, terminar_cola, desconectar_io, remove_cola_blocked_io,
  quitar_de_cola,
}
use tp_sistemas_operativos_c.Kernel.Interfaces.Cola.{IsCola, esta_libre, esta_ocupada}
use tp_sistemas_operativos_c.Kernel.Interfaces.Esperas.{
  cuantas, cuantas-keep-le, esperas, esperas_de, vivas, IsIo, guardar-IsIo, esperas-put,
  esperas-remove, get-remove_ne, AreColas, get-IsCola, put-AreColas, remove-AreColas,
}
use tp_sistemas_operativos_c.Kernel.Interfaces.Invariante.{
  TrasIo, TrasIo-bind, vivas-le_one, desocupar_io-IsIo,
}

pub agregar_interfaz-IsIo :
    (nombre tipo : String) (socket : ℕ) (s : Sistema)
    → IsIo s
    → IsIo (agregar_interfaz nombre tipo socket s)
unfolding agregar_interfaz
agregar_interfaz-IsIo nombre tipo socket s v =
    let d : DatosInterfaz = record {
      tipo_interfaz = tipo;
      socket_interfaz = socket;
      cola_blocked_interfaz = [];
      pcb_usando_interfaz = none;
      libre = true;
    } in
    record {
      colas = put-AreColas nombre _ s.interfaces_dict (esta_libre refl refl refl) v.colas;
      pedidos = λ pid.
          let h = v.pedidos pid in
          let e = esperas-put pid nombre d s.interfaces_dict in omega (arith, h, e);
    }

terminar_cola-IsIo :
    (q : List Pcb) (s : Sistema)
    → AreColas s.interfaces_dict
    → ((pid : ℕ)
        → esperas pid s.interfaces_dict + cuantas pid q ≤ vivas (get pid s.operaciones_espera_dict))
    → TrasIo IsIo (terminar_cola q s)
unfolding terminar_cola
terminar_cola-IsIo [] s c h = record { colas = c; pedidos = λ pid. omega (arith, h pid) }
terminar_cola-IsIo (p ∷ q) s c h =
    TrasIo-bind IsIo (lts_ex p blocked (delete_queue_blocked p s.kernel)) _ (λ k.
      terminar_cola-IsIo q
        (record s { kernel = k; operaciones_espera_dict = remove p.pid s.operaciones_espera_dict })
        c
        (λ pid. elim (Bool-cases (p.pid == pid)) [
          | inl m ↦ ground (arith, h pid, m, vivas-le_one (get pid s.operaciones_espera_dict))
          | inr m ↦ ground (
            arith,
            h pid,
            m,
            get-remove_ne p.pid pid s.operaciones_espera_dict (λ x. ground (arith, m, x)),
          )
        ]))

pub desconectar_io-IsIo :
    (nombre : String) (s : Sistema) → IsIo s → TrasIo IsIo (desconectar_io nombre s)
unfolding desconectar_io
desconectar_io-IsIo nombre s v = elim (Option-cases (get nombre s.interfaces_dict)) [
  | inl e ↦ rw (desconectar_io, e) v
  | inr (d, e) ↦
      rw (desconectar_io, e)
        (terminar_cola-IsIo d.cola_blocked_interfaz _
          (remove-AreColas nombre s.interfaces_dict v.colas)
          (λ pid. omega (
            arith,
            v.pedidos pid,
            esperas-remove pid nombre s.interfaces_dict,
            ap (esperas_de pid) e,
          )))
]

keep-IsCola :
    (t : Pcb → Bool) (d : DatosInterfaz)
    → IsCola d
    → IsCola (record d { cola_blocked_interfaz = keep t d.cola_blocked_interfaz })
keep-IsCola t d (esta_libre l q u) = esta_libre l (ap (keep t) q) u
keep-IsCola t d (esta_ocupada p l u) = esta_ocupada p l u

quitar_de_cola-IsIo :
    (o : Option Pcb) (nombre : String) (d : DatosInterfaz) (pcb : Pcb) (s : Sistema)
    → IsIo s
    → get nombre s.interfaces_dict ≡ some d
    → d.pcb_usando_interfaz ≡ o
    → TrasIo IsIo (quitar_de_cola o nombre d pcb s)
unfolding quitar_de_cola
quitar_de_cola-IsIo none nombre d pcb s v g u = tt
quitar_de_cola-IsIo (some p) nombre d pcb s v g u = elim (Bool-cases (pcb.pid == p.pid)) [
  | inl e ↦ rw e (desocupar_io-IsIo nombre s v)
  | inr e ↦ rw e (
      let q = d.cola_blocked_interfaz in
      rw (rotate-keep (otro pcb) q) (
        guardar-IsIo nombre d (record d { cola_blocked_interfaz = keep (otro pcb) q }) s
          s.operaciones_espera_dict v g
          (keep-IsCola (otro pcb) d (get-IsCola nombre d s.interfaces_dict v.colas g))
          (λ pid h hd. let le = cuantas-keep-le pid (otro pcb) q in omega (arith, h, le)) _ _))
]

pub remove_cola_blocked_io-IsIo :
    (nombre : String) (pcb : Pcb) (s : Sistema)
    → IsIo s
    → TrasIo IsIo (remove_cola_blocked_io nombre pcb s)
unfolding remove_cola_blocked_io
remove_cola_blocked_io-IsIo nombre pcb s v = elim (Option-cases (get nombre s.interfaces_dict)) [
  | inl e ↦ rw (remove_cola_blocked_io, e) v
  | inr (d, e) ↦
      rw (remove_cola_blocked_io, e)
        (quitar_de_cola-IsIo d.pcb_usando_interfaz nombre d pcb s v e refl)
]
