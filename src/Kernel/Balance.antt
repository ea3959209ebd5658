-- ===== src/Kernel/Balance.antt =====
-- recursos.c: WAIT and SIGNAL end, and with the instances of every resource accounted for.
use mathlib.Core.Path.{subst}
use tp_sistemas_operativos_c.Common.{
  ℕ, ◌≡◌, String, List, ◌∷◌, some, arith, ℤ, pos, ltb_ℤ, get, nat_eq, string_eq, Bool-cases, inl,
  inr, refl,
}
use tp_sistemas_operativos_c.Utils.Pcb.{Pcb}
use tp_sistemas_operativos_c.Kernel.Estado.{Kernel, Recurso, RecList, viva, sigue, exec_proceso}
use tp_sistemas_operativos_c.Kernel.Recursos.{guardar, una_mas, desbloquear}
use tp_sistemas_operativos_c.Kernel.Recursos.Registro.{
  buscar_recurso, guardar_lista, anotar_signal, modificar_signal_dic_rec, signal_de,
}
use tp_sistemas_operativos_c.Kernel.Fin.{enviar}
use tp_sistemas_operativos_c.Kernel.Syscalls.{
  una_menos, atender_wait, atender_signal, atender_signal_a,
}
use tp_sistemas_operativos_c.Kernel.Listos.{Tras}
use tp_sistemas_operativos_c.Kernel.Libro.{total}
use tp_sistemas_operativos_c.Kernel.Conserva.{atender_wait-total, atender_signal-total}
use tp_sistemas_operativos_c.Kernel.Semaforo.{lista_wait, wait_concede, wait_bloquea, bloqueado}

-- A WAIT on a resource that there is, by a process whose list was not destroyed, with a process on
-- the CPU, ends, and for every resource leaves the sum of its free instances and of those noted
-- for the processes as it was, whether the process blocks or not.
pub atender_wait-conserva :
    (g : ℤ) (p e : Pcb) (m n : String) (r : Recurso) (l : List RecList) (es : List Pcb) (k : Kernel)
    → get m k.diccionario_recursos ≡ some r
    → lista_wait m (get p.pid k.rec_por_pid_dic) ≡ some l
    → k.cola_exec ≡ e ∷ es
    → (k' : Kernel) × (atender_wait g p m k ≡ sigue k') × (total n k' ≡ total n k)
atender_wait-conserva g p e m n r l es k h hl x =
    let t = atender_wait-total g p m n r k h in
    elim (Bool-cases (ltb_ℤ (pos 0) r.instancias_recurso)) [
      | inl c ↦
          let q = wait_concede g p m r l k h hl (ground arith) in
          (
            enviar (exec_proceso p) (guardar_lista p.pid l (guardar m (una_menos r) k)),
            q,
            subst (Tras (λ k'. total n k' ≡ total n k)) q t,
          )
      | inr c ↦
          let q = wait_bloquea g p e m r l es k h hl (ground arith) x in
          (bloqueado g p m r l es k, q, subst (Tras (λ k'. total n k' ≡ total n k)) q t)
    ]

-- A SIGNAL of a resource that the process has a note of ends, and leaves that sum as it was for
-- every resource.
pub atender_signal-conserva :
    (g : ℤ) (p : Pcb) (m n : String) (r : Recurso) (l : List RecList) (i : ℕ) (k : Kernel)
    → get m k.diccionario_recursos ≡ some r
    → get p.pid k.rec_por_pid_dic ≡ some (viva l)
    → buscar_recurso l m ≡ some i
    → (k' : Kernel) × (atender_signal g p m k ≡ sigue k') × (total n k' ≡ total n k)
unfolding atender_signal atender_signal_a modificar_signal_dic_rec signal_de
atender_signal-conserva g p m n r l i k h hl b =
    let q : atender_signal g p m k
        ≡ sigue (
            enviar (exec_proceso p) (
              desbloquear m (una_mas r)
                (guardar_lista p.pid (anotar_signal m l) (guardar m (una_mas r) k)))) =
      rw (h, hl) refl in
    (
      enviar (exec_proceso p) (
          desbloquear m (una_mas r)
            (guardar_lista p.pid (anotar_signal m l) (guardar m (una_mas r) k))),
      q,
      subst (Tras (λ k'. total n k' ≡ total n k)) q (atender_signal-total g p m n r l i k h hl b),
    )
