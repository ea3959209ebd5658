-- ===== src/Kernel/Interfaces.antt =====
-- kernel/src/manejoInterfaces.c: the interfaces, the processes that wait for them, and the
-- operations in wait. The bytes of a payload are those of its serializer: here it is its fields.
-- A pointer `pcb_usando_interfaz` that is null or was never set is `none`.
pub mod Cola
pub mod Esperas
pub mod Invariante
pub mod Bajas
pub mod Llamadas
pub mod Listos
pub mod Turnos
pub mod Pasos
mod Tests
use tp_sistemas_operativos_c.Common.{
  ℕ, zero, suc, ◌+◌, ◌==◌, ◌≡◌, Bool, true, false, not, String, str_eq, List, [], ◌∷◌, ◌++◌, Option,
  none, some, length, rotate, if◌then◌else◌, ℤ, get, put, remove, nat_eq, string_eq,
}
use tp_sistemas_operativos_c.Utils.Pcb.{Pcb, exec, blocked}
use tp_sistemas_operativos_c.Kernel.Estado.{
  Kernel, iob, confirmar_syscall, Resultado, sigue, fallo, ◌>>=◌,
}
use tp_sistemas_operativos_c.Kernel.Colas.{
  add_queue_blocked, delete_queue_blocked, cargar_desbloqueado,
}
use tp_sistemas_operativos_c.Kernel.Recursos.{otro}
use tp_sistemas_operativos_c.Kernel.Fin.{enviar, lts_ex, desalojar}
use tp_sistemas_operativos_c.Kernel.Espera.{syscall, interrumpir}

-- The operations of OP_CODES_ENTRE that go to an interface.
pub data Operacion : Type 0 where
  io_stdin_read io_stdout_write io_fs_create io_fs_delete io_fs_truncate : Operacion
  io_fs_write io_fs_read io_gen_sleep : Operacion

-- What the payloads hold besides the block and the name of the interface.
pub data Pedido : Type 0 where
  stdin_read stdout_write : ℤ → ℤ → Pedido
  fs_create : String → Pedido
  fs_truncate : String → ℤ → Pedido
  fs_write_or_read : String → ℤ → ℤ → ℤ → Pedido
  gen_sleep : ℤ → Pedido

-- `dato_op_espera`, or a pointer to one that was freed.
pub data DatoOpEspera : Type 0 where
  vivo : Operacion → Pedido → DatoOpEspera
  liberado : DatoOpEspera

-- `datos_interfaz`, less its mutex
pub record DatosInterfaz : Type 0 where
  pub tipo_interfaz : String
  pub socket_interfaz : ℕ
  pub cola_blocked_interfaz : List Pcb
  pub pcb_usando_interfaz : Option Pcb
  pub libre : Bool

-- A packet that was sent to an interface.
pub record Envio : Type 0 where
  pub socket : ℕ
  pub operacion : Operacion
  pub pedido : Pedido

pub record Sistema : Type 0 where
  pub kernel : Kernel
  pub interfaces_dict : List (String × DatosInterfaz)
  pub operaciones_espera_dict : List (ℕ × DatoOpEspera)
  pub a_interfaces : List Envio

abbrev pub con_kernel : Resultado Kernel → Sistema → Resultado Sistema
con_kernel r s = r >>= λ k. sigue (record s { kernel = k })

unfoldable pub agregar_interfaz : String → String → ℕ → Sistema → Sistema
agregar_interfaz nombre tipo socket s = record s {
  interfaces_dict =
      put nombre
        (record {
          tipo_interfaz = tipo;
          socket_interfaz = socket;
          cola_blocked_interfaz = [];
          pcb_usando_interfaz = none;
          libre = true;
        })
        s.interfaces_dict;
}

abbrev pub usar : Pcb → DatosInterfaz → DatosInterfaz
usar pcb d = record d { pcb_usando_interfaz = some pcb; libre = false }

abbrev pub esperar : Pcb → DatosInterfaz → DatosInterfaz
esperar pcb d = record d { cola_blocked_interfaz = d.cola_blocked_interfaz ++ (pcb ∷ []) }

abbrev pub guardar_interfaz : String → DatosInterfaz → Sistema → Sistema
guardar_interfaz nombre d s = record s { interfaces_dict = put nombre d s.interfaces_dict }

abbrev pub enviar_a : DatosInterfaz → Operacion → Pedido → Sistema → Sistema
enviar_a d op pedido s = record s {
  a_interfaces =
      s.a_interfaces
      ++ (record { socket = d.socket_interfaz; operacion = op; pedido = pedido } ∷ []);
}

-- An interface of the right type: the request is sent, or waits if the interface is busy.
unfoldable pub pedir : DatosInterfaz → Operacion → Pedido → String → Pcb → Sistema → Sistema
unfolding add_queue_blocked
pedir d op pedido nombre pcb s =
    let s' = record s { kernel = add_queue_blocked pcb iob nombre s.kernel } in
    if d.libre
    then guardar_interfaz nombre (usar pcb d) (enviar_a d op pedido s')
    else guardar_interfaz nombre (esperar pcb d) (record s' {
      operaciones_espera_dict = put pcb.pid (vivo op pedido) s'.operaciones_espera_dict;
    })

unfoldable pub atender_io_a :
    Option DatosInterfaz → String → Operacion → Pedido → String → Pcb → Sistema → Resultado Sistema
atender_io_a none tipo op pedido nombre pcb s = con_kernel (lts_ex pcb exec s.kernel) s
atender_io_a (some d) tipo op pedido nombre pcb s =
    if str_eq d.tipo_interfaz tipo
    then sigue (pedir d op pedido nombre pcb s)
    else con_kernel (lts_ex pcb exec s.kernel) s

-- What the six handlers of requests share: they differ in the type that they ask for.
unfoldable pub atender_io : String → Operacion → Pedido → String → Pcb → Sistema → Resultado Sistema
unfolding atender_io_a
atender_io tipo op pedido nombre pcb s =
    atender_io_a (get nombre s.interfaces_dict) tipo op pedido nombre pcb s

unfoldable pub atender_io_stdin_read : ℤ → ℤ → String → Pcb → Sistema → Resultado Sistema
unfolding atender_io
atender_io_stdin_read tam dir_fisica = atender_io "STDIN" io_stdin_read (stdin_read tam dir_fisica)

unfoldable pub atender_io_stdout_write : ℤ → ℤ → String → Pcb → Sistema → Resultado Sistema
unfolding atender_io
atender_io_stdout_write direccion_fisica tam =
    atender_io "STDOUT" io_stdout_write (stdout_write direccion_fisica tam)

unfoldable pub atender_fs_create_or_delate :
    String → Operacion → String → Pcb → Sistema → Resultado Sistema
unfolding atender_io
atender_fs_create_or_delate archivo code = atender_io "DIALFS" code (fs_create archivo)

unfoldable pub atender_fs_truncate : String → ℤ → String → Pcb → Sistema → Resultado Sistema
unfolding atender_io
atender_fs_truncate archivo tam = atender_io "DIALFS" io_fs_truncate (fs_truncate archivo tam)

unfoldable pub atender_fs_write_or_read :
    String → ℤ → ℤ → ℤ → Operacion → String → Pcb → Sistema → Resultado Sistema
unfolding atender_io
atender_fs_write_or_read archivo tam dir_fisica puntero code =
    atender_io "DIALFS" code (fs_write_or_read archivo tam dir_fisica puntero)

unfoldable pub atender_io_gen_sleep : ℤ → String → Pcb → Sistema → Resultado Sistema
unfolding atender_io
atender_io_gen_sleep tiempo = atender_io "GENERICA" io_gen_sleep (gen_sleep tiempo)

-- The queue of an interface that is gone: its processes end.
unfoldable pub terminar_cola : List Pcb → Sistema → Resultado Sistema
terminar_cola [] s = sigue s
terminar_cola (p ∷ ps) s = do
  k ← lts_ex p blocked (delete_queue_blocked p s.kernel)
  terminar_cola ps
      (record s { kernel = k; operaciones_espera_dict = remove p.pid s.operaciones_espera_dict })

unfoldable pub desconectar_io : String → Sistema → Resultado Sistema
unfolding terminar_cola
desconectar_io nombre s = elim (get nombre s.interfaces_dict) [
  | none ↦ sigue s
  | some d ↦
      terminar_cola d.cola_blocked_interfaz
        (record s { interfaces_dict = remove nombre s.interfaces_dict })
]

-- The interface goes on with the process that has waited longest, whose operation is sent and freed.
unfoldable pub siguiente_de :
    Option DatoOpEspera → String → DatosInterfaz → Pcb → Sistema → Resultado Sistema
siguiente_de (some (vivo op pedido)) nombre d prox s = sigue (
    guardar_interfaz nombre (usar prox d) (
      enviar_a d op pedido
        (record s { operaciones_espera_dict = put prox.pid liberado s.operaciones_espera_dict })))
siguiente_de (some liberado) nombre d prox s = fallo
siguiente_de none nombre d prox s = fallo

unfoldable pub siguiente : List Pcb → String → DatosInterfaz → Sistema → Resultado Sistema
unfolding siguiente_de
siguiente [] nombre d s =
    sigue (guardar_interfaz nombre (record d { pcb_usando_interfaz = none; libre = true }) s)
siguiente (prox ∷ q) nombre d s =
    siguiente_de (get prox.pid s.operaciones_espera_dict) nombre
      (record d { cola_blocked_interfaz = q }) prox s

unfoldable pub desocupar_de : Option Pcb → String → DatosInterfaz → Sistema → Resultado Sistema
unfolding siguiente
desocupar_de none nombre d s = fallo
desocupar_de (some p) nombre d s =
    siguiente d.cola_blocked_interfaz nombre d
      (record s { kernel = cargar_desbloqueado p (delete_queue_blocked p s.kernel) })

-- The log reads the block before the test for a null interface.
unfoldable pub desocupar_io : String → Sistema → Resultado Sistema
unfolding desocupar_de
desocupar_io nombre s = elim (get nombre s.interfaces_dict) [
  | none ↦ fallo
  | some d ↦ desocupar_de d.pcb_usando_interfaz nombre d s
]

unfoldable pub quitar_de_cola :
    Option Pcb → String → DatosInterfaz → Pcb → Sistema → Resultado Sistema
unfolding desocupar_io
quitar_de_cola none nombre d pcb s = fallo
quitar_de_cola (some p) nombre d pcb s =
    let q = d.cola_blocked_interfaz in
    if pcb.pid == p.pid
    then desocupar_io nombre s
    else sigue (
        guardar_interfaz nombre
          (record d { cola_blocked_interfaz = rotate (otro pcb) (length q) q }) s)

unfoldable pub remove_cola_blocked_io : String → Pcb → Sistema → Resultado Sistema
unfolding quitar_de_cola
remove_cola_blocked_io nombre pcb s = elim (get nombre s.interfaces_dict) [
  | none ↦ sigue s
  | some d ↦ quitar_de_cola d.pcb_usando_interfaz nombre d pcb s
]

-- espera.c: the packets of the thread of an interface; `nombre_io_hilo` is null until it is named.
pub data PaqueteIo : Type 0 where
  io_interfaz_creada : String → String → PaqueteIo
  termine_operacion : PaqueteIo
  desconexion : PaqueteIo

unfoldable pub atender_cliente :
    ℕ → Option String → PaqueteIo → Sistema → Resultado (Option String × Sistema)
unfolding agregar_interfaz desocupar_io desconectar_io
atender_cliente socket nombre (io_interfaz_creada n tipo) s =
    sigue (some n, agregar_interfaz n tipo socket s)
atender_cliente socket none termine_operacion s = fallo
atender_cliente socket (some n) termine_operacion s = do s' ← desocupar_io n s; sigue (some n, s')
atender_cliente socket none desconexion s = sigue (none, s)
atender_cliente socket (some n) desconexion s = do s' ← desconectar_io n s; sigue (some n, s')

-- espera.c: a system call that asks for an interface: the process leaves the CPU first.
unfoldable pub atender_syscall_io :
    ℤ → (Pcb → Sistema → Resultado Sistema) → Pcb → Sistema → Resultado Sistema
unfolding interrumpir desalojar
atender_syscall_io gastado atender pcb s = do
  r ← desalojar gastado pcb (interrumpir syscall (enviar confirmar_syscall s.kernel))
  atender r.0 (record s { kernel = r.1 })
