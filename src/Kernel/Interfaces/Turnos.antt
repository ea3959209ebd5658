-- ===== src/Kernel/Interfaces/Turnos.antt =====
-- kernel/src/manejoInterfaces.c: the order in which the processes use an interface.
use tp_sistemas_operativos_c.Common.{
  ℕ, zero, suc, ◌≡◌, refl, ap, sym, ◌∙◌, String, List, [], ◌∷◌, ◌++◌, some, length, get, string_eq,
  beq_refl, inl, inr, Option-cases,
}
use mathlib.Core.Path.{subst}
use tp_sistemas_operativos_c.Utils.Pcb.{Pcb}
use tp_sistemas_operativos_c.Kernel.Estado.{Resultado, sigue, ◌>>=◌}
use tp_sistemas_operativos_c.Kernel.Interfaces.{DatosInterfaz, Sistema, desocupar_io}
use tp_sistemas_operativos_c.Kernel.Interfaces.Cola.{
  IsCola, esta_libre, esta_ocupada, con_usando, pendientes, pendientes_de, vista, IsDesocupado,
  IsServible, desocupar_io-IsDesocupado,
}
use tp_sistemas_operativos_c.Kernel.Interfaces.Esperas.{IsIo, get-IsCola}
use tp_sistemas_operativos_c.Kernel.Interfaces.Invariante.{
  TrasIo, IsIo-IsServible, desocupar_io-IsIo,
}
use tp_sistemas_operativos_c.Kernel.Interfaces.Pasos.{Seguro, AlcanzaIo, AlcanzaIo-Seguro}

-- An interface with processes exists and is used by the first of them.
record IsUsada (nombre : String) (p : Pcb) (q : List Pcb) (s : Sistema) (d : DatosInterfaz)
    : Type 0 where
  esta : get nombre s.interfaces_dict ≡ some d
  usando : d.pcb_usando_interfaz ≡ some p
  cola : d.cola_blocked_interfaz ≡ q

pendientes-usada :
    (d : DatosInterfaz) (p : Pcb) (q : List Pcb)
    → IsCola d
    → pendientes d ≡ p ∷ q
    → (d.pcb_usando_interfaz ≡ some p) × (d.cola_blocked_interfaz ≡ q)
pendientes-usada d p q (esta_libre l c u) h =
    let z : d.cola_blocked_interfaz ≡ p ∷ q =
      sym (ap (λ o. con_usando o d.cola_blocked_interfaz) u) ∙ h in
    cc
pendientes-usada d p q (esta_ocupada p' l u) h =
    let z : p' ∷ d.cola_blocked_interfaz ≡ p ∷ q =
      sym (ap (λ o. con_usando o d.cola_blocked_interfaz) u) ∙ h in
    (cc, cc)

vista-IsUsada :
    (nombre : String) (p : Pcb) (q : List Pcb) (s : Sistema)
    → IsIo s
    → vista s nombre ≡ p ∷ q
    → (d : DatosInterfaz) × IsUsada nombre p q s d
vista-IsUsada nombre p q s v h = elim (Option-cases (get nombre s.interfaces_dict)) [
  | inl e ↦ let z : [] ≡ p ∷ q = sym (ap pendientes_de e) ∙ h in cc
  | inr (d, e) ↦
      let (u, c) =
        pendientes-usada d p q (get-IsCola nombre d s.interfaces_dict v.colas e)
          (sym (ap pendientes_de e) ∙ h) in
      (d, record { esta = e; usando = u; cola = c })
]

-- What the end of an operation does where the invariant holds: it does not fail.
desocupar_io-usada :
    (nombre : String) (p : Pcb) (q : List Pcb) (s : Sistema)
    → IsIo s
    → vista s nombre ≡ p ∷ q
    → (d : DatosInterfaz) × (s' : Sistema) × (desocupar_io nombre s ≡ sigue s')
      × IsDesocupado d nombre p q s s'
      × IsIo s'
desocupar_io-usada nombre p q s v h =
    let (d, w) = vista-IsUsada nombre p q s v h in
    let r =
      desocupar_io-IsDesocupado nombre p s d w.esta w.usando
        (IsIo-IsServible nombre d s d.cola_blocked_interfaz v w.esta refl) in
    (
      d,
      r.0,
      r.1,
      subst (λ q. IsDesocupado d nombre p q s r.0) w.cola r.2,
      subst (TrasIo IsIo) r.1 (desocupar_io-IsIo nombre s v),
    )

-- When an interface that a process uses ends an operation, in a state that the events of the
-- kernel, of the requests of the CPU and of the interfaces lead to from one with the count of the
-- ready processes and the queues of the interfaces right, where each request of the CPU came when
-- its process waited in no queue of an interface: the handler returns, that process is ready and
-- off the queue, the other queues stay, and the request of the next one, whose payload was not
-- freed, is sent.
pub AlcanzaIo-desocupar_io :
    {s0 s : Sistema} (nombre : String) (p : Pcb) (q : List Pcb)
    → Seguro s0
    → AlcanzaIo s0 s
    → vista s nombre ≡ p ∷ q
    → IsServible q s
      × ((d : DatosInterfaz) × (get nombre s.interfaces_dict ≡ some d)
          × ((s' : Sistema) × (desocupar_io nombre s ≡ sigue s') × IsDesocupado d nombre p q s s'))
AlcanzaIo-desocupar_io {s = s} nombre p q v r h =
    let w = AlcanzaIo-Seguro v r in
    let (d, u) = vista-IsUsada nombre p q s w.1 h in
    let (s', e, i) =
      desocupar_io-IsDesocupado nombre p s d u.esta u.usando
        (IsIo-IsServible nombre d s d.cola_blocked_interfaz w.1 u.esta refl) in
    (
      IsIo-IsServible nombre d s q w.1 u.esta u.cola,
      (d, u.esta, (s', e, subst (λ q. IsDesocupado d nombre p q s s') u.cola i)),
    )

-- `n` ends of operations of one interface.
abbrev pub desocupar_veces : ℕ → String → Sistema → Resultado Sistema
desocupar_veces zero nombre s = sigue s
desocupar_veces (suc n) nombre s = desocupar_io nombre s >>= desocupar_veces n nombre

-- A process that waits for an interface gets to use it: where the invariant holds and `ps` are before
-- it in the queue, after as many ends of operations as `ps` is long, each of which returns, the
-- process is the one that uses the interface, with those behind it in their order.
pub desocupar_veces-turno :
    (nombre : String) (ps : List Pcb) (p : Pcb) (qs : List Pcb) (s : Sistema)
    → IsIo s
    → vista s nombre ≡ ps ++ (p ∷ qs)
    → (s' : Sistema) × (desocupar_veces (length ps) nombre s ≡ sigue s')
      × (vista s' nombre ≡ p ∷ qs)
desocupar_veces-turno nombre [] p qs s v h = (s, refl, h)
desocupar_veces-turno nombre (x ∷ ps) p qs s v h =
    let (d, s1, e, w, v1) = desocupar_io-usada nombre x (ps ++ (p ∷ qs)) s v h in
    let z : vista s1 nombre ≡ ps ++ (p ∷ qs) = w.colas nombre ∙ rw (beq_refl nombre) refl in
    let (s2, e2, w2) = desocupar_veces-turno nombre ps p qs s1 v1 z in (s2, rw e e2, w2)
