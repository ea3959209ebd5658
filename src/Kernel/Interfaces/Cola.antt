-- ===== src/Kernel/Interfaces/Cola.antt =====
-- kernel/src/manejoInterfaces.c: each interface as a queue of processes, the one that uses it first.
use tp_sistemas_operativos_c.Common.{
  ◌≡◌, refl, ap, String, str_eq, true, false, List, [], ◌∷◌, ◌++◌, append-nil, sym, ◌∙◌, Option,
  none, some, if◌then◌else◌, get, get-put, string_eq, nat_eq, inl, inr, Bool-cases,
}
use tp_sistemas_operativos_c.Utils.Pcb.{Pcb}
use tp_sistemas_operativos_c.Kernel.Estado.{iob, sigue}
use tp_sistemas_operativos_c.Kernel.Colas.{
  add_queue_blocked, delete_queue_blocked, cargar_desbloqueado,
}
use tp_sistemas_operativos_c.Kernel.Interfaces.{
  Operacion, Pedido, DatoOpEspera, vivo, liberado, DatosInterfaz, Envio, Sistema, guardar_interfaz,
  pedir, atender_io, atender_io_a, siguiente_de, siguiente, desocupar_de, desocupar_io,
}

-- An interface that is free is used by no process and has an empty queue.
pub data IsCola (d : DatosInterfaz) : Type 0 where
  esta_libre :
      d.libre ≡ true → d.cola_blocked_interfaz ≡ [] → d.pcb_usando_interfaz ≡ none → IsCola d
  esta_ocupada : (p : Pcb) → d.libre ≡ false → d.pcb_usando_interfaz ≡ some p → IsCola d

-- The queue that an interface stands for.
abbrev pub con_usando : Option Pcb → List Pcb → List Pcb
con_usando none q = q
con_usando (some p) q = p ∷ q

abbrev pub pendientes : DatosInterfaz → List Pcb
pendientes d = con_usando d.pcb_usando_interfaz d.cola_blocked_interfaz

abbrev pub pendientes_de : Option DatosInterfaz → List Pcb
pendientes_de none = []
pendientes_de (some d) = pendientes d

abbrev pub vista : Sistema → String → List Pcb
vista s n = pendientes_de (get n s.interfaces_dict)

-- The queues after one of them changed.
abbrev pub cambiada : String → List Pcb → Sistema → String → List Pcb
cambiada nombre q s n = if str_eq nombre n then q else vista s n

abbrev pub si_libre : List Pcb → Envio → List Envio → List Envio
si_libre [] e es = es ++ (e ∷ [])
si_libre (p ∷ ps) e es = es

abbrev pub envio : DatosInterfaz → Operacion → Pedido → Envio
envio d op pedido = record { socket = d.socket_interfaz; operacion = op; pedido = pedido }

-- What a request does to the queues: the process is the last one of that interface, the other
-- queues are as they were, and the request is sent if no process was before it.
pub record IsEncolado (d : DatosInterfaz) (op : Operacion) (pedido : Pedido) (nombre : String)
    (pcb : Pcb) (s s' : Sistema) : Type 0 where
  pub colas : (n : String) → vista s' n ≡ cambiada nombre (pendientes d ++ (pcb ∷ [])) s n
  pub envios : s'.a_interfaces ≡ si_libre (pendientes d) (envio d op pedido) s.a_interfaces
  pub bloqueado : s'.kernel ≡ add_queue_blocked pcb iob nombre s.kernel

vista-guardar :
    (nombre n : String) (d : DatosInterfaz) (s : Sistema)
    → vista (guardar_interfaz nombre d s) n ≡ cambiada nombre (pendientes d) s n
vista-guardar nombre n d s =
    rw (get-put nombre n d s.interfaces_dict)
      (elim (Bool-cases (str_eq nombre n)) [ inl e ↦ rw e refl | inr e ↦ rw e refl ])

pub pedir-IsEncolado :
    (d : DatosInterfaz) (op : Operacion) (pedido : Pedido) (nombre : String) (pcb : Pcb)
    (s : Sistema)
    → IsCola d
    → IsEncolado d op pedido nombre pcb s (pedir d op pedido nombre pcb s)
unfolding pedir
pedir-IsEncolado d op pedido nombre pcb s (esta_libre l q u) =
    rw (l, q, u)
      (record { colas = λ n. vista-guardar nombre n _ s; envios = refl; bloqueado = refl })
pedir-IsEncolado d op pedido nombre pcb s (esta_ocupada p l u) =
    rw (l, u) (record { colas = λ n. vista-guardar nombre n _ s; envios = refl; bloqueado = refl })

-- A request to an interface that exists, has the type asked for and is in the invariant: the handler
-- returns, with the process last in the queue of that interface and blocked, and the other queues as
-- they were; the request is sent at once if the queue was empty and else nothing is sent.
pub atender_io-IsEncolado :
    (tipo : String) (op : Operacion) (pedido : Pedido) (nombre : String) (pcb : Pcb) (s : Sistema)
    (d : DatosInterfaz)
    → get nombre s.interfaces_dict ≡ some d
    → str_eq d.tipo_interfaz tipo ≡ true
    → IsCola d
    → (s' : Sistema) × (atender_io tipo op pedido nombre pcb s ≡ sigue s')
      × IsEncolado d op pedido nombre pcb s s'
unfolding atender_io atender_io_a
atender_io-IsEncolado tipo op pedido nombre pcb s d g t v =
    (pedir d op pedido nombre pcb s, rw (g, t) refl, pedir-IsEncolado d op pedido nombre pcb s v)

-- The request that waits for the head of a queue.
abbrev pub pedido_de : DatosInterfaz → Option DatoOpEspera → List Envio
pedido_de d (some (vivo op pedido)) = envio d op pedido ∷ []
pedido_de d (some liberado) = []
pedido_de d none = []

abbrev pub siguiente_pedido : DatosInterfaz → List Pcb → Sistema → List Envio
siguiente_pedido d [] s = []
siguiente_pedido d (p ∷ q) s = pedido_de d (get p.pid s.operaciones_espera_dict)

abbrev pub IsViva : Option DatoOpEspera → Type 0
IsViva o = (op : Operacion) × (pedido : Pedido) × (o ≡ some (vivo op pedido))

-- The payload of the head of the queue was not freed.
abbrev pub IsServible : List Pcb → Sistema → Type 0
IsServible [] s = Unit
IsServible (p ∷ q) s = IsViva (get p.pid s.operaciones_espera_dict)

pub record IsDesocupado (d : DatosInterfaz) (nombre : String) (p : Pcb) (q : List Pcb)
    (s s' : Sistema) : Type 0 where
  pub colas : (n : String) → vista s' n ≡ cambiada nombre q s n
  pub envios : s'.a_interfaces ≡ s.a_interfaces ++ siguiente_pedido d q s
  pub listo : s'.kernel ≡ cargar_desbloqueado p (delete_queue_blocked p s.kernel)

siguiente-IsDesocupado :
    (d : DatosInterfaz) (nombre : String) (p : Pcb) (q : List Pcb) (s : Sistema)
    → d.cola_blocked_interfaz ≡ q
    → IsServible q s
    → (s' : Sistema) × (siguiente q nombre d
          (record s { kernel = cargar_desbloqueado p (delete_queue_blocked p s.kernel) })
        ≡ sigue s')
      × IsDesocupado d nombre p q s s'
unfolding siguiente siguiente_de
siguiente-IsDesocupado d nombre p [] s e v = (
  _,
  refl,
  record {
    colas = λ n. vista-guardar nombre n _ s ∙ ap (λ q. cambiada nombre q s n) e;
    envios = sym (append-nil s.a_interfaces);
    listo = refl;
  },
)
siguiente-IsDesocupado d nombre p (x ∷ q) s e (op, pedido, h) =
    rw h (
      _,
      refl,
      record { colas = λ n. vista-guardar nombre n _ s; envios = rw h refl; listo = refl },
    )

pub desocupar_io-siguiente :
    (nombre : String) (p : Pcb) (s : Sistema) (d : DatosInterfaz)
    → get nombre s.interfaces_dict ≡ some d
    → d.pcb_usando_interfaz ≡ some p
    → desocupar_io nombre s
      ≡ siguiente d.cola_blocked_interfaz nombre d
          (record s { kernel = cargar_desbloqueado p (delete_queue_blocked p s.kernel) })
unfolding desocupar_io desocupar_de
desocupar_io-siguiente nombre p s d g u =
    rw (desocupar_io, g) (ap (λ o. desocupar_de o nombre d s) u)

-- The end of an operation: the process that used the interface is ready again, the next one of the
-- queue uses it and its request is sent.
pub desocupar_io-IsDesocupado :
    (nombre : String) (p : Pcb) (s : Sistema) (d : DatosInterfaz)
    → get nombre s.interfaces_dict ≡ some d
    → d.pcb_usando_interfaz ≡ some p
    → IsServible d.cola_blocked_interfaz s
    → (s' : Sistema) × (desocupar_io nombre s ≡ sigue s')
      × IsDesocupado d nombre p d.cola_blocked_interfaz s s'
desocupar_io-IsDesocupado nombre p s d g u v =
    let r = siguiente-IsDesocupado d nombre p d.cola_blocked_interfaz s refl v in
    (r.0, desocupar_io-siguiente nombre p s d g u ∙ r.1, r.2)
