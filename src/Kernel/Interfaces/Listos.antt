-- ===== src/Kernel/Interfaces/Listos.antt =====
-- kernel/src/manejoInterfaces.c: the count of ready processes and the operations on the interfaces.
use tp_sistemas_operativos_c.Common.{
  String, List, [], ◌∷◌, Option, none, some, get, string_eq, nat_eq, inl, inr, Option-cases,
  Bool-cases,
}
use tp_sistemas_operativos_c.Utils.Pcb.{Pcb, blocked}
use tp_sistemas_operativos_c.Kernel.Estado.{Kernel, Resultado, sigue, espera, fallo, ◌>>=◌}
use tp_sistemas_operativos_c.Kernel.Colas.{
  add_queue_blocked, delete_queue_blocked, delete_queue_blocked_lem, cargar_desbloqueado,
}
use tp_sistemas_operativos_c.Kernel.Fin.{lts_ex}
use tp_sistemas_operativos_c.Kernel.Listos.{
  Tras, IsListo, cargar_desbloqueado-IsListo, lts_ex-IsListo,
}
use tp_sistemas_operativos_c.Kernel.Interfaces.{
  Operacion, Pedido, DatosInterfaz, DatoOpEspera, vivo, liberado, Sistema, pedir, siguiente,
  siguiente_de, desocupar_de, desocupar_io, terminar_cola, desconectar_io,
}
use tp_sistemas_operativos_c.Kernel.Interfaces.Invariante.{TrasIo}

abbrev pub Listo : Sistema → Type 0
Listo s = IsListo s.kernel

pub pedir-Listo :
    (d : DatosInterfaz) (op : Operacion) (pedido : Pedido) (nombre : String) (pcb : Pcb)
    (s : Sistema)
    → Listo s
    → Listo (pedir d op pedido nombre pcb s)
unfolding pedir add_queue_blocked
pedir-Listo d op pedido nombre pcb s v = elim (Bool-cases d.libre) [
  | inl e ↦ simp e (record { cuenta = v.cuenta; sin_priori = v.sin_priori })
  | inr e ↦ simp e (record { cuenta = v.cuenta; sin_priori = v.sin_priori })
]

-- A process that was blocked is ready again.
desbloqueado-IsListo :
    (p : Pcb) (k : Kernel) → IsListo k → IsListo (cargar_desbloqueado p (delete_queue_blocked p k))
desbloqueado-IsListo p k v =
    cargar_desbloqueado-IsListo p _
      (rw (delete_queue_blocked_lem p k) (record { cuenta = v.cuenta; sin_priori = v.sin_priori }))

siguiente_de-Listo :
    (o : Option DatoOpEspera) (nombre : String) (d : DatosInterfaz) (p : Pcb) (s : Sistema)
    → Listo s
    → TrasIo Listo (siguiente_de o nombre d p s)
unfolding siguiente_de
siguiente_de-Listo none nombre d p s v = tt
siguiente_de-Listo (some liberado) nombre d p s v = tt
siguiente_de-Listo (some (vivo op pedido)) nombre d p s v = v

siguiente-Listo :
    (q : List Pcb) (nombre : String) (d : DatosInterfaz) (s : Sistema)
    → Listo s
    → TrasIo Listo (siguiente q nombre d s)
unfolding siguiente
siguiente-Listo [] nombre d s v = v
siguiente-Listo (p ∷ q) nombre d s v =
    siguiente_de-Listo (get p.pid s.operaciones_espera_dict) nombre _ p s v

desocupar_de-Listo :
    (o : Option Pcb) (nombre : String) (d : DatosInterfaz) (s : Sistema)
    → Listo s
    → TrasIo Listo (desocupar_de o nombre d s)
unfolding desocupar_de
desocupar_de-Listo none nombre d s v = tt
desocupar_de-Listo (some p) nombre d s v =
    siguiente-Listo d.cola_blocked_interfaz nombre d _ (desbloqueado-IsListo p s.kernel v)

pub desocupar_io-Listo :
    (nombre : String) (s : Sistema) → Listo s → TrasIo Listo (desocupar_io nombre s)
unfolding desocupar_io
desocupar_io-Listo nombre s v = elim (Option-cases (get nombre s.interfaces_dict)) [
  | inl e ↦ rw (desocupar_io, e) tt
  | inr (d, e) ↦ rw (desocupar_io, e) (desocupar_de-Listo d.pcb_usando_interfaz nombre d s v)
]

Listo-bind :
    (r : Resultado Kernel) (f : Kernel → Resultado Sistema)
    → Tras IsListo r
    → ((k : Kernel) → IsListo k → TrasIo Listo (f k))
    → TrasIo Listo (r >>= f)
Listo-bind (sigue k) f l h = h k l
Listo-bind espera f l h = tt
Listo-bind fallo f l h = tt

terminar_cola-Listo : (q : List Pcb) (s : Sistema) → Listo s → TrasIo Listo (terminar_cola q s)
unfolding terminar_cola
terminar_cola-Listo [] s v = v
terminar_cola-Listo (p ∷ q) s v =
    let l = lts_ex-IsListo p blocked (delete_queue_blocked p s.kernel) (
      rw (delete_queue_blocked_lem p s.kernel)
        (record { cuenta = v.cuenta; sin_priori = v.sin_priori })) in
    Listo-bind (lts_ex p blocked (delete_queue_blocked p s.kernel)) _ l
      (λ k l. terminar_cola-Listo q _ l)

pub desconectar_io-Listo :
    (nombre : String) (s : Sistema) → Listo s → TrasIo Listo (desconectar_io nombre s)
unfolding desconectar_io
desconectar_io-Listo nombre s v = elim (Option-cases (get nombre s.interfaces_dict)) [
  | inl e ↦ rw (desconectar_io, e) v
  | inr (d, e) ↦ rw (desconectar_io, e) (terminar_cola-Listo d.cola_blocked_interfaz _ v)
]
