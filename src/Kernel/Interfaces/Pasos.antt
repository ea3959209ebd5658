-- ===== src/Kernel/Interfaces/Pasos.antt =====
-- The kernel and its interfaces as one system: the events of the kernel, of the CPU's requests and of
-- the interfaces, in any order.
use mathlib.Core.Path.{subst}
use tp_sistemas_operativos_c.Common.{
  ℕ, ◌≡◌, refl, String, str_eq, List, [], ◌∷◌, Option, none, some, ℤ, get, ap, ◌∙◌, string_eq,
  nat_eq, inl, inr, Bool-cases,
}
use tp_sistemas_operativos_c.Utils.Pcb.{Pcb, exec}
use tp_sistemas_operativos_c.Kernel.Estado.{
  Kernel, Resultado, sigue, espera, fallo, ◌>>=◌, confirmar_syscall, es_vrr,
}
use tp_sistemas_operativos_c.Kernel.Fin.{enviar, lts_ex}
use tp_sistemas_operativos_c.Kernel.Espera.{syscall, interrumpir}
use tp_sistemas_operativos_c.Kernel.Listos.{
  Tras, IsListo, TrasPcb, lts_ex-IsListo, desalojar-IsListo,
}
use tp_sistemas_operativos_c.Kernel.Pasos.{Evento, paso}
use tp_sistemas_operativos_c.Kernel.Pasos.Seguro.{paso-IsListo}
use tp_sistemas_operativos_c.Kernel.Interfaces.{
  Operacion, Pedido, DatosInterfaz, Sistema, con_kernel, atender_io, atender_io_a, desocupar_io,
  desconectar_io, agregar_interfaz, PaqueteIo, io_interfaz_creada, termine_operacion, desconexion,
  atender_cliente, atender_syscall_io, atender_io_stdin_read, atender_io_stdout_write,
  atender_fs_create_or_delate, atender_fs_truncate, atender_fs_write_or_read, atender_io_gen_sleep,
}
use tp_sistemas_operativos_c.Kernel.Fin.Leyes.{desalojar_lem, desalojo, tras_desalojo, sin_exec}
use tp_sistemas_operativos_c.Kernel.Interfaces.Llamadas.{
  PaqueteCpuIo, atender_cpu_io, pid_de, cpu_stdin_read, cpu_stdout_write, cpu_fs_create,
  cpu_fs_delete, cpu_fs_truncate, cpu_fs_write, cpu_fs_read, cpu_gen_sleep,
}
use tp_sistemas_operativos_c.Kernel.Interfaces.Esperas.{IsIo, esperas}
use tp_sistemas_operativos_c.Kernel.Interfaces.Invariante.{TrasIo, pedir-IsIo, desocupar_io-IsIo}
use tp_sistemas_operativos_c.Kernel.Interfaces.Listos.{
  Listo, pedir-Listo, desocupar_io-Listo, desconectar_io-Listo,
}
use tp_sistemas_operativos_c.Kernel.Interfaces.Bajas.{agregar_interfaz-IsIo, desconectar_io-IsIo}

-- A packet of an interface comes with its socket and the name that its thread has by then.
pub data EventoIo : Type 0 where
  del_kernel : Evento → EventoIo
  de_cpu_io : ℤ → PaqueteCpuIo → EventoIo
  de_interfaz : ℕ → Option String → PaqueteIo → EventoIo

unfoldable pub paso_io : EventoIo → Sistema → Resultado Sistema
unfolding paso atender_cpu_io atender_cliente
paso_io (del_kernel e) s = con_kernel (paso e s.kernel) s
paso_io (de_cpu_io gastado p) s = atender_cpu_io gastado p s
paso_io (de_interfaz socket nombre p) s = do r ← atender_cliente socket nombre p s; sigue r.1

-- The CPU asks for a process that runs, so for one that waits for no interface.
abbrev pub IsPosible : EventoIo → Sistema → Type 0
IsPosible (del_kernel e) s = Unit
IsPosible (de_cpu_io gastado p) s = esperas (pid_de p) s.interfaces_dict ≡ 0
IsPosible (de_interfaz socket nombre p) s = Unit

pub data AlcanzaIo (s : Sistema) : Sistema → Type 0 where
  inicio_io : AlcanzaIo s s
  tras_io :
      {a b : Sistema} (e : EventoIo)
      → AlcanzaIo s a
      → IsPosible e a
      → paso_io e a ≡ sigue b
      → AlcanzaIo s b

abbrev pub Seguro : Sistema → Type 0
Seguro s = IsListo s.kernel × IsIo s

IsIo-kernel : (s : Sistema) (k : Kernel) → IsIo s → IsIo (record s { kernel = k })
IsIo-kernel s k v = record { colas = v.colas; pedidos = v.pedidos }

-- A step of the kernel alone.
con_kernel-Seguro :
    (r : Resultado Kernel) (s : Sistema) → Tras IsListo r → IsIo s → TrasIo Seguro (con_kernel r s)
con_kernel-Seguro (sigue k) s l v = (l, IsIo-kernel s k v)
con_kernel-Seguro espera s l v = tt
con_kernel-Seguro fallo s l v = tt

TrasIo-pair :
    (P Q : Sistema → Type 0) (r : Resultado Sistema)
    → TrasIo P r
    → TrasIo Q r
    → TrasIo (λ s. P s × Q s) r
TrasIo-pair P Q (sigue s) p q = (p, q)
TrasIo-pair P Q espera p q = tt
TrasIo-pair P Q fallo p q = tt

atender_io_a-Seguro :
    (o : Option DatosInterfaz) (tipo : String) (op : Operacion) (pedido : Pedido) (nombre : String)
    (pcb : Pcb) (s : Sistema)
    → get nombre s.interfaces_dict ≡ o
    → Seguro s
    → esperas pcb.pid s.interfaces_dict ≡ 0
    → TrasIo Seguro (atender_io_a o tipo op pedido nombre pcb s)
unfolding atender_io_a
atender_io_a-Seguro none tipo op pedido nombre pcb s g v w =
    con_kernel-Seguro (lts_ex pcb exec s.kernel) s (lts_ex-IsListo pcb exec s.kernel v.0) v.1
atender_io_a-Seguro (some d) tipo op pedido nombre pcb s g v w =
    elim (Bool-cases (str_eq d.tipo_interfaz tipo)) [
      | inl e ↦
          simp e
            (pedir-Listo d op pedido nombre pcb s v.0, pedir-IsIo d op pedido nombre pcb s v.1 g w)
      | inr e ↦ simp e (
          con_kernel-Seguro (lts_ex pcb exec s.kernel) s (lts_ex-IsListo pcb exec s.kernel v.0) v.1)
    ]

atender_io-Seguro :
    (tipo : String) (op : Operacion) (pedido : Pedido) (nombre : String) (pcb : Pcb) (s : Sistema)
    → Seguro s
    → esperas pcb.pid s.interfaces_dict ≡ 0
    → TrasIo Seguro (atender_io tipo op pedido nombre pcb s)
unfolding atender_io
atender_io-Seguro tipo op pedido nombre pcb s v w =
    atender_io_a-Seguro (get nombre s.interfaces_dict) tipo op pedido nombre pcb s refl v w

pid-tras_desalojo : (g : ℤ) (p : Pcb) (k : Kernel) → (tras_desalojo g p k).pid ≡ p.pid
pid-tras_desalojo g p k = elim (Bool-cases (es_vrr k)) [ inl e ↦ rw e refl | inr e ↦ rw e refl ]

syscall-Seguro :
    (tipo : String) (op : Operacion) (pedido : Pedido) (nombre : String) (gastado : ℤ) (pcb : Pcb)
    (s : Sistema)
    → Seguro s
    → esperas pcb.pid s.interfaces_dict ≡ 0
    → TrasIo Seguro (atender_syscall_io gastado (atender_io tipo op pedido nombre) pcb s)
unfolding atender_syscall_io interrumpir
syscall-Seguro tipo op pedido nombre gastado pcb s v w =
    let k = interrumpir syscall (enviar confirmar_syscall s.kernel) in
    let l =
      desalojar-IsListo gastado pcb k
        (record { cuenta = v.0.cuenta; sin_priori = v.0.sin_priori }) in
    rw (desalojar_lem gastado pcb k)
      (go k.cola_exec k (subst TrasPcb (desalojar_lem gastado pcb k) l))
  where
    go :
        (es : List Pcb) (k : Kernel)
        → TrasPcb (desalojo es gastado pcb k)
        → TrasIo Seguro (
            desalojo es gastado pcb k >>= λ r.
            atender_io tipo op pedido nombre r.0 (record s { kernel = r.1 }))
    go [] k l = tt
    go (e ∷ es) k l =
        atender_io-Seguro tipo op pedido nombre (tras_desalojo gastado pcb k)
          (record s { kernel = sin_exec es k }) (l, IsIo-kernel s _ v.1)
          (ap (λ n. esperas n s.interfaces_dict) (pid-tras_desalojo gastado pcb k) ∙ w)

cpu_io-Seguro :
    (gastado : ℤ) (p : PaqueteCpuIo) (s : Sistema)
    → Seguro s
    → esperas (pid_de p) s.interfaces_dict ≡ 0
    → TrasIo Seguro (atender_cpu_io gastado p s)
unfolding atender_cpu_io pid_de atender_io_stdin_read atender_io_stdout_write
    atender_fs_create_or_delate atender_fs_truncate atender_fs_write_or_read atender_io_gen_sleep
cpu_io-Seguro gastado (cpu_stdin_read pcb io a b) s v w = syscall-Seguro _ _ _ io gastado pcb s v w
cpu_io-Seguro gastado (cpu_stdout_write pcb io a b) s v w =
    syscall-Seguro _ _ _ io gastado pcb s v w
cpu_io-Seguro gastado (cpu_fs_create pcb io a) s v w = syscall-Seguro _ _ _ io gastado pcb s v w
cpu_io-Seguro gastado (cpu_fs_delete pcb io a) s v w = syscall-Seguro _ _ _ io gastado pcb s v w
cpu_io-Seguro gastado (cpu_fs_truncate pcb io a b) s v w = syscall-Seguro _ _ _ io gastado pcb s v w
cpu_io-Seguro gastado (cpu_fs_write pcb io a b c d) s v w =
    syscall-Seguro _ _ _ io gastado pcb s v w
cpu_io-Seguro gastado (cpu_fs_read pcb io a b c d) s v w = syscall-Seguro _ _ _ io gastado pcb s v w
cpu_io-Seguro gastado (cpu_gen_sleep pcb io a) s v w = syscall-Seguro _ _ _ io gastado pcb s v w

con_nombre :
    (n : String) (r : Resultado Sistema)
    → TrasIo Seguro r
    → TrasIo Seguro
        (r >>= (λ s'. let t : Option String × Sistema = (some n, s') in sigue t) >>= λ r. sigue r.1)
con_nombre n (sigue s) h = h
con_nombre n espera h = tt
con_nombre n fallo h = tt

cliente-Seguro :
    (socket : ℕ) (nombre : Option String) (p : PaqueteIo) (s : Sistema)
    → Seguro s
    → TrasIo Seguro (atender_cliente socket nombre p s >>= λ r. sigue r.1)
unfolding atender_cliente agregar_interfaz
cliente-Seguro socket nombre (io_interfaz_creada n tipo) s v =
    (v.0, agregar_interfaz-IsIo n tipo socket s v.1)
cliente-Seguro socket none termine_operacion s v = tt
cliente-Seguro socket (some n) termine_operacion s v = con_nombre n (desocupar_io n s) (
    TrasIo-pair Listo IsIo (desocupar_io n s) (desocupar_io-Listo n s v.0)
      (desocupar_io-IsIo n s v.1))
cliente-Seguro socket none desconexion s v = v
cliente-Seguro socket (some n) desconexion s v = con_nombre n (desconectar_io n s) (
    TrasIo-pair Listo IsIo (desconectar_io n s) (desconectar_io-Listo n s v.0)
      (desconectar_io-IsIo n s v.1))

paso_io-Seguro :
    (e : EventoIo) (s : Sistema) → Seguro s → IsPosible e s → TrasIo Seguro (paso_io e s)
unfolding paso_io
paso_io-Seguro (del_kernel e) s v w =
    con_kernel-Seguro (paso e s.kernel) s (paso-IsListo e s.kernel v.0) v.1
paso_io-Seguro (de_cpu_io gastado p) s v w = cpu_io-Seguro gastado p s v w
paso_io-Seguro (de_interfaz socket nombre p) s v w = cliente-Seguro socket nombre p s v

-- In every state that the events of the kernel, of the requests of the CPU and of the interfaces
-- lead to from one where it holds, where each request of the CPU came when its process waited in
-- no queue of an interface, which the handlers do not test: sem_cont_ready, with the unit that the
-- scheduler holds, counts the ready processes, a free interface has an empty queue, no process
-- waits in the queues of the interfaces more than once, and each that waits has a payload that was
-- not freed.
pub AlcanzaIo-Seguro : {s s' : Sistema} → Seguro s → AlcanzaIo s s' → Seguro s'
AlcanzaIo-Seguro v inicio_io = v
AlcanzaIo-Seguro v (tras_io {a = a} e r w h) =
    subst (TrasIo Seguro) h (paso_io-Seguro e a (AlcanzaIo-Seguro v r) w)
