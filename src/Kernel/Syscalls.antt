-- ===== src/Kernel/Syscalls.antt =====
-- recursos.c: the system calls WAIT and SIGNAL. `gastado` is what the clock of the quantum says.
use tp_sistemas_operativos_c.Common.{
  ◌++◌, [], ◌∷◌, String, Option, none, some, if◌then◌else◌, ℤ, pos, negsuc, ◌+ℤ◌, ltb_ℤ, get,
  string_eq,
}
use tp_sistemas_operativos_c.Utils.Pcb.{Pcb, exec}
use tp_sistemas_operativos_c.Kernel.Estado.{
  Kernel, Recurso, rec, exec_proceso, Resultado, sigue, ◌>>=◌,
}
use tp_sistemas_operativos_c.Kernel.Colas.{add_queue_blocked}
use tp_sistemas_operativos_c.Kernel.Recursos.{guardar, una_mas, desbloquear}
use tp_sistemas_operativos_c.Kernel.Recursos.Registro.{
  modificar_wait_dic_rec, modificar_signal_dic_rec,
}
use tp_sistemas_operativos_c.Kernel.Fin.{enviar, lts_ex, desalojar}

-- INVALID_RESOURCE: the process leaves the CPU and ends.
unfoldable pub recurso_invalido : ℤ → Pcb → Kernel → Resultado Kernel
recurso_invalido gastado pcb k = do s ← desalojar gastado pcb k; lts_ex s.0 exec s.1

abbrev pub una_menos : Recurso → Recurso
una_menos r = record r { instancias_recurso = r.instancias_recurso +ℤ negsuc 0 }

-- The process leaves the CPU for the queue of the resource `r`.
unfoldable pub bloquear_por : ℤ → Pcb → String → Recurso → Kernel → Resultado Kernel
bloquear_por gastado pcb nombre r k = do
  s ← desalojar gastado pcb k
  let r' = record r { cola_blocked_recurso = r.cola_blocked_recurso ++ (s.0 ∷ []) }
  sigue (add_queue_blocked s.0 rec nombre (guardar nombre r' s.1))

unfoldable pub wait_a : Option Recurso → ℤ → Pcb → String → Kernel → Resultado Kernel
unfolding recurso_invalido bloquear_por
wait_a none gastado pcb nombre k = recurso_invalido gastado pcb k
wait_a (some r) gastado pcb nombre k = do
  k' ← modificar_wait_dic_rec pcb.pid nombre (guardar nombre (una_menos r) k)
  if ltb_ℤ (una_menos r).instancias_recurso (pos 0)
      then bloquear_por gastado pcb nombre (una_menos r) k'
      else sigue (enviar (exec_proceso pcb) k')

unfoldable pub atender_wait : ℤ → Pcb → String → Kernel → Resultado Kernel
unfolding wait_a
atender_wait gastado pcb nombre k = wait_a (get nombre k.diccionario_recursos) gastado pcb nombre k

unfoldable pub atender_signal_a : Option Recurso → ℤ → Pcb → String → Kernel → Resultado Kernel
unfolding recurso_invalido
atender_signal_a none gastado pcb nombre k = recurso_invalido gastado pcb k
atender_signal_a (some r) gastado pcb nombre k = do
  k' ← modificar_signal_dic_rec pcb.pid nombre (guardar nombre (una_mas r) k)
  sigue (enviar (exec_proceso pcb) (desbloquear nombre (una_mas r) k'))

unfoldable pub atender_signal : ℤ → Pcb → String → Kernel → Resultado Kernel
unfolding atender_signal_a
atender_signal gastado pcb nombre k =
    atender_signal_a (get nombre k.diccionario_recursos) gastado pcb nombre k
