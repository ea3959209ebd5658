-- ===== src/Kernel/Fin/Leyes.antt =====
-- planificacion.c: what `desalojar` leaves.
use tp_sistemas_operativos_c.Common.{◌≡◌, refl, true, List, [], ◌∷◌, if◌then◌else◌, ℤ}
use tp_sistemas_operativos_c.Utils.Pcb.{Pcb}
use tp_sistemas_operativos_c.Kernel.Estado.{Kernel, es_vrr, Resultado, sigue, fallo, ◌>>=◌}
use tp_sistemas_operativos_c.Kernel.Fin.{
  hilo_cancelado, modificar_quantum, soltar_de, soltar_cpu, desalojar,
}

abbrev pub sin_exec : List Pcb → Kernel → Kernel
sin_exec es k = record k { cola_exec = es; cpu_libre = true; hilo_quantum = hilo_cancelado k }

abbrev pub tras_desalojo : ℤ → Pcb → Kernel → Pcb
tras_desalojo g p k = if es_vrr k then modificar_quantum g p else p

abbrev pub desalojo : List Pcb → ℤ → Pcb → Kernel → Resultado (Pcb × Kernel)
desalojo [] g p k = fallo
desalojo (e ∷ es) g p k = sigue (tras_desalojo g p k, sin_exec es k)

soltar_de-desalojo :
    (es : List Pcb) (g : ℤ) (p : Pcb) (k : Kernel)
    → (soltar_de es (record k { hilo_quantum = hilo_cancelado k }) >>= λ k2.
        sigue (tras_desalojo g p k, k2))
      ≡ desalojo es g p k
unfolding soltar_de
soltar_de-desalojo [] g p k = refl
soltar_de-desalojo (e ∷ es) g p k = refl

pub desalojar_lem : (g : ℤ) (p : Pcb) (k : Kernel) → desalojar g p k ≡ desalojo k.cola_exec g p k
unfolding desalojar soltar_cpu
desalojar_lem g p k = soltar_de-desalojo k.cola_exec g p k
