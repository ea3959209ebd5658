-- ===== src/Cpu/Tlb.antt =====
-- cpu/src/cpu-utils/TLB.c: the translation cache. `time(NULL)` is an argument; the comparison of
-- texts that ignores case is the `eq_ic` of the section, since so-commons has it.
use tp_sistemas_operativos_c.Common.{
  ℕ, suc, ◌==◌, Bool, true, false, ◌&&◌, String, List, [], ◌∷◌, ◌++◌, Option, none, some, length,
  if◌then◌else◌, ℤ, negsuc, eqb_ℤ,
}

-- `tlb_entry`
pub record TlbEntry : Type 0 where
  pub pid : ℕ
  pub pagina : ℤ
  pub marco : ℤ

-- `tlb_entry_lru`
pub record TlbEntryLru : Type 0 where
  pub pid : ℕ
  pub pagina : ℤ
  pub timestamp : ℕ

-- `TLB` and `lru_peticiones`, which starts as a null pointer.
pub record Tlb : Type 0 where
  pub entradas : List TlbEntry
  pub lru_peticiones : Option (List TlbEntryLru)

abbrev pub es_de : ℕ → ℤ → TlbEntry → Bool
es_de pid pagina e = (e.pid == pid) && eqb_ℤ e.pagina pagina

-- The frame of the first entry of the page, or -1.
unfoldable pub marco_segun_pid_y_pagina : ℕ → ℤ → List TlbEntry → ℤ
marco_segun_pid_y_pagina pid pagina [] = negsuc 0
marco_segun_pid_y_pagina pid pagina (e ∷ es) =
    if es_de pid pagina e then e.marco else marco_segun_pid_y_pagina pid pagina es

-- The index of the first entry of the page; `none` is the -1.
unfoldable pub encontrar_pag_en_tlb : ℕ → ℤ → List TlbEntry → Option ℕ
encontrar_pag_en_tlb pid pagina [] = none
encontrar_pag_en_tlb pid pagina (e ∷ es) =
    let rest = encontrar_pag_en_tlb pid pagina es in
    if es_de pid pagina e then some 0 else (elim rest [ none ↦ none | some i ↦ some (suc i) ])

-- `list_remove(TLB, 0)` of a list that is not empty.
abbrev pub sin_primera : List TlbEntry → List TlbEntry
sin_primera [] = []
sin_primera (e ∷ es) = es

-- Takes the oldest entry out and adds the new one at the end.
unfoldable pub tlb_agregar_fifo : TlbEntry → List TlbEntry → List TlbEntry
tlb_agregar_fifo e es = sin_primera es ++ (e ∷ [])

abbrev pub es_peticion : ℕ → ℤ → TlbEntryLru → Bool
es_peticion pid pagina p = (p.pid == pid) && eqb_ℤ p.pagina pagina

unfoldable pub lru_ya_pedido : ℕ → ℤ → List TlbEntryLru → Bool
lru_ya_pedido pid pagina [] = false
lru_ya_pedido pid pagina (p ∷ ps) =
    if es_peticion pid pagina p then true else lru_ya_pedido pid pagina ps

unfoldable pub agregar_timestamp : ℕ → ℕ → ℤ → List TlbEntryLru → List TlbEntryLru
agregar_timestamp ahora pid pagina ps =
    ps ++ (record { pid = pid; pagina = pagina; timestamp = ahora } ∷ [])

unfoldable pub actualizar_timestamp : ℕ → ℕ → ℤ → List TlbEntryLru → List TlbEntryLru
actualizar_timestamp ahora pid pagina [] = []
actualizar_timestamp ahora pid pagina (p ∷ ps) =
    if es_peticion pid pagina p
    then record p { timestamp = ahora } ∷ ps
    else p ∷ actualizar_timestamp ahora pid pagina ps

unfoldable pub actualizar_timestamp_o_agregar : ℕ → ℕ → ℤ → List TlbEntryLru → List TlbEntryLru
unfolding lru_ya_pedido agregar_timestamp actualizar_timestamp
actualizar_timestamp_o_agregar ahora pid pagina ps =
    if lru_ya_pedido pid pagina ps
    then actualizar_timestamp ahora pid pagina ps
    else agregar_timestamp ahora pid pagina ps

abbrev pub peticiones : Option (List TlbEntryLru) → List TlbEntryLru
peticiones none = []
peticiones (some ps) = ps

module _ (eq_ic : String → String → Bool) (tlb_max_size : ℕ) (algoritmo : String) where
  unfoldable pub tlb_llena : Tlb → Bool
  tlb_llena t = length t.entradas == tlb_max_size

  -- Under LRU the requests are noted, with the time, whether the cache was full or not.
  unfoldable pub anotar_peticion : ℕ → TlbEntry → Tlb → Tlb
  unfolding actualizar_timestamp_o_agregar
  anotar_peticion ahora e t =
      if eq_ic algoritmo "LRU"
      then record t {
        lru_peticiones =
            some
              (actualizar_timestamp_o_agregar ahora e.pid e.pagina (peticiones t.lru_peticiones));
      }
      else t

  -- A full cache under an unknown algorithm is left as it is.
  unfoldable pub agregar_entrada_tlb : ℕ → TlbEntry → Tlb → Tlb
  unfolding tlb_llena tlb_agregar_fifo anotar_peticion
  agregar_entrada_tlb ahora e t =
      if tlb_llena t
      then (if eq_ic algoritmo "FIFO"
          then anotar_peticion ahora e (record t { entradas = tlb_agregar_fifo e t.entradas })
          else if eq_ic algoritmo "LRU"
          then anotar_peticion ahora e (record t { entradas = tlb_agregar_fifo e t.entradas })
          else t)
      else anotar_peticion ahora e (record t { entradas = t.entradas ++ (e ∷ []) })
