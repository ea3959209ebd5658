-- ===== src/Kernel/Recursos.antt =====
-- recursos.c: the resources, and what the end of a process gives back.
-- The system calls WAIT and SIGNAL are in Kernel/Syscalls.
pub mod Registro
use tp_sistemas_operativos_c.Common.{
  ℕ, zero, suc, ◌+◌, ◌==◌, ◌≡◌, Bool, true, false, not, String, List, [], ◌∷◌, ◌++◌, Option, none,
  some, length, if◌then◌else◌, ℤ, pos, ◌+ℤ◌, pos_part, ltb_ℤ, get, put, nat_eq, string_eq, rotate,
}
use tp_sistemas_operativos_c.Utils.Pcb.{Pcb}
use tp_sistemas_operativos_c.Kernel.Estado.{
  Kernel, Recurso, RecList, ListaRec, viva, liberada, Resultado, sigue, fallo,
}
use tp_sistemas_operativos_c.Kernel.Colas.{cargar_desbloqueado, delete_queue_blocked}

abbrev pub guardar : String → Recurso → Kernel → Kernel
guardar nombre r k = record k { diccionario_recursos = put nombre r k.diccionario_recursos }

-- The first of the processes that wait for `r` is taken from its two queues and made ready.
unfoldable pub despertar : List Pcb → String → Recurso → Kernel → Kernel
despertar [] nombre r k = guardar nombre r k
despertar (p ∷ q) nombre r k =
    cargar_desbloqueado p
      (delete_queue_blocked p (guardar nombre (record r { cola_blocked_recurso = q }) k))

-- What `atender_signal` and `signal_por_fin` do after `instancias_recurso++`.
unfoldable pub desbloquear : String → Recurso → Kernel → Kernel
desbloquear nombre r k =
    if ltb_ℤ r.instancias_recurso (pos 0)
    then guardar nombre r k
    else despertar r.cola_blocked_recurso nombre r k

abbrev pub una_mas : Recurso → Recurso
una_mas r = record r { instancias_recurso = r.instancias_recurso +ℤ pos 1 }

unfoldable pub signal_a : Option Recurso → String → Kernel → Kernel
signal_a none nombre k = k
signal_a (some r) nombre k = desbloquear nombre (una_mas r) k

unfoldable pub signal_por_fin : String → Kernel → Kernel
unfolding signal_a
signal_por_fin nombre k = signal_a (get nombre k.diccionario_recursos) nombre k

-- The inner loop of `recorrer_liberar_rec`.
unfoldable pub liberar_instancias : ℕ → String → Kernel → Kernel
liberar_instancias zero nombre k = k
liberar_instancias (suc n) nombre k = liberar_instancias n nombre (signal_por_fin nombre k)

unfoldable pub recorrer_liberar_rec : List RecList → Kernel → Kernel
recorrer_liberar_rec [] k = k
recorrer_liberar_rec (r ∷ rs) k =
    recorrer_liberar_rec rs (liberar_instancias (pos_part r.instancias_recurso) r.nombre_recurso k)

-- The list is destroyed and stays in the dictionary.
unfoldable pub liberar_lista : Option ListaRec → ℕ → Kernel → Resultado Kernel
liberar_lista none pid k = sigue k
liberar_lista (some (viva l)) pid k =
    let k' = recorrer_liberar_rec l k in
    sigue (record k' { rec_por_pid_dic = put pid liberada k'.rec_por_pid_dic })
liberar_lista (some liberada) pid k = fallo

unfoldable pub modificar_fin_proc_dic_rec : ℕ → Kernel → Resultado Kernel
unfolding liberar_lista
modificar_fin_proc_dic_rec pid k = liberar_lista (get pid k.rec_por_pid_dic) pid k

abbrev pub otro : Pcb → Pcb → Bool
otro pcb p = not (p.pid == pcb.pid)

unfoldable pub remove_cola_blocked_rec : String → Pcb → Kernel → Kernel
remove_cola_blocked_rec nombre pcb k = elim (get nombre k.diccionario_recursos) [
  | none ↦ k
  | some r ↦
      let q = r.cola_blocked_recurso in
      guardar nombre (record r { cola_blocked_recurso = rotate (otro pcb) (length q) q }) k
]
