-- ===== src/Kernel/Recursos/Registro.antt =====
-- recursos.c: the instances that each process holds, `rec_por_pid_dic`.
-- Its keys are the decimal texts of PIDs, which tell PIDs apart as the numbers do.
use mathlib.Core.Option
use tp_sistemas_operativos_c.Common.{
  ℕ, zero, suc, String, str_eq, List, [], ◌∷◌, ◌++◌, Option, none, some, if◌then◌else◌, ℤ, pos,
  negsuc, ◌+ℤ◌, get, put, nat_eq,
}
use tp_sistemas_operativos_c.Kernel.Estado.{
  Kernel, RecList, ListaRec, viva, liberada, Resultado, sigue, fallo,
}

-- The index of the first entry of that name; `none` is the -1.
unfoldable pub buscar_recurso : List RecList → String → Option ℕ
buscar_recurso [] nombre = none
buscar_recurso (r ∷ rs) nombre =
    if str_eq r.nombre_recurso nombre then some 0 else Option.map suc (buscar_recurso rs nombre)

-- `list_get(lista, i)->instancias_recurso += d`
unfoldable pub sumar_en : ℤ → ℕ → List RecList → List RecList
sumar_en d i [] = []
sumar_en d zero (r ∷ rs) = record r { instancias_recurso = r.instancias_recurso +ℤ d } ∷ rs
sumar_en d (suc i) (r ∷ rs) = r ∷ sumar_en d i rs

abbrev pub nueva : String → RecList
nueva nombre = record { nombre_recurso = nombre; instancias_recurso = pos 1 }

unfoldable pub wait_en : Option ℕ → String → List RecList → List RecList
wait_en none nombre l = l ++ (nueva nombre ∷ [])
wait_en (some i) nombre l = sumar_en (pos 1) i l

unfoldable pub anotar_wait : String → List RecList → List RecList
anotar_wait nombre l = wait_en (buscar_recurso l nombre) nombre l

unfoldable pub signal_en : Option ℕ → List RecList → List RecList
signal_en none l = l
signal_en (some i) l = sumar_en (negsuc 0) i l

unfoldable pub anotar_signal : String → List RecList → List RecList
anotar_signal nombre l = signal_en (buscar_recurso l nombre) l

abbrev pub guardar_lista : ℕ → List RecList → Kernel → Kernel
guardar_lista pid l k = record k { rec_por_pid_dic = put pid (viva l) k.rec_por_pid_dic }

unfoldable pub wait_de : Option ListaRec → ℕ → String → Kernel → Resultado Kernel
wait_de none pid nombre k = sigue (guardar_lista pid (nueva nombre ∷ []) k)
wait_de (some (viva l)) pid nombre k = sigue (guardar_lista pid (anotar_wait nombre l) k)
wait_de (some liberada) pid nombre k = fallo

unfoldable pub modificar_wait_dic_rec : ℕ → String → Kernel → Resultado Kernel
unfolding wait_de
modificar_wait_dic_rec pid nombre k = wait_de (get pid k.rec_por_pid_dic) pid nombre k

unfoldable pub signal_de : Option ListaRec → ℕ → String → Kernel → Resultado Kernel
signal_de none pid nombre k = sigue k
signal_de (some (viva l)) pid nombre k = sigue (guardar_lista pid (anotar_signal nombre l) k)
signal_de (some liberada) pid nombre k = fallo

unfoldable pub modificar_signal_dic_rec : ℕ → String → Kernel → Resultado Kernel
unfolding signal_de
modificar_signal_dic_rec pid nombre k = signal_de (get pid k.rec_por_pid_dic) pid nombre k
