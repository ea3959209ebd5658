-- ===== src/Cpu/Mmu.antt =====
-- cpu/src/cpu-utils/mmu.c: the translation of logical addresses. What the memory answers to
-- SOLICITAR_DIRECCION_FISICA is an argument: `none` is no answer, or one of another operation.
pub mod Coherencia
pub mod Reciente
pub mod Direccion
use tp_sistemas_operativos_c.Common.{
  ℕ, zero, suc, ◌+◌, ◌==◌, ◌≡◌, Bool, true, false, ◌&&◌, String, List, [], ◌∷◌, ◌++◌, Option, none,
  some, length, if◌then◌else◌, ltb, ℤ, pos, negsuc, eqb_ℤ, div_trunc, ◌+ℤ◌, ◌-ℤ◌, ◌*ℤ◌,
}
use tp_sistemas_operativos_c.Cpu.Tlb.{
  TlbEntry, Tlb, es_de, marco_segun_pid_y_pagina, encontrar_pag_en_tlb, agregar_entrada_tlb,
}

-- The loop of `marcoSegunPIDyPagina`, with the tests in the other order.
unfoldable pub buscar_en_tlb : ℕ → ℤ → List TlbEntry → ℤ
buscar_en_tlb pid pagina [] = negsuc 0
buscar_en_tlb pid pagina (e ∷ es) =
    if eqb_ℤ e.pagina pagina && (e.pid == pid) then e.marco else buscar_en_tlb pid pagina es

unfoldable pub buscar_en_tabla_de_paginas : (ℕ → ℤ → Option ℤ) → ℕ → ℤ → ℤ
buscar_en_tabla_de_paginas memoria pid pagina = elim (memoria pid pagina) [
  | none ↦ negsuc 0
  | some marco ↦ marco
]

-- `list_get`, `list_remove` and `list_add`: the entry at the index goes to the end.
unfoldable pub al_final : ℕ → List TlbEntry → List TlbEntry
al_final i [] = []
al_final zero (e ∷ es) = es ++ (e ∷ [])
al_final (suc i) (e ∷ es) = e ∷ al_final i es

unfoldable pub numero_pagina : ℕ → ℤ → ℤ
numero_pagina tam_pagina dir = div_trunc dir tam_pagina

unfoldable pub desplazamiento : ℕ → ℤ → ℤ
unfolding numero_pagina
desplazamiento tam_pagina dir = dir -ℤ numero_pagina tam_pagina dir *ℤ pos tam_pagina

-- marco * TAM_PAGINA + desplazamiento, or -1 for the frame -1.
unfoldable pub direccion_fisica : ℕ → ℤ → ℤ → ℤ
unfolding desplazamiento
direccion_fisica tam_pagina marco dir =
    if eqb_ℤ marco (negsuc 0)
    then negsuc 0
    else marco *ℤ pos tam_pagina +ℤ desplazamiento tam_pagina dir

module _ (eq_ic : String → String → Bool) (tlb_max_size : ℕ) (algoritmo : String)
    (memoria : ℕ → ℤ → Option ℤ) where
  -- After a hit: under LRU the entry becomes the latest.
  unfoldable pub acierto : ℕ → ℤ → Tlb → Tlb
  unfolding al_final encontrar_pag_en_tlb
  acierto pid pagina t =
      if eq_ic algoritmo "LRU"
      then (elim (encontrar_pag_en_tlb pid pagina t.entradas) [
        | none ↦ t
        | some i ↦ record t { entradas = al_final i t.entradas }
      ])
      else t

  unfoldable pub fallo_tlb : ℕ → ℕ → ℤ → ℤ → Tlb → Tlb
  unfolding agregar_entrada_tlb
  fallo_tlb ahora pid pagina marco t =
      if ltb 0 tlb_max_size
      then agregar_entrada_tlb eq_ic tlb_max_size algoritmo ahora
          (record { pid = pid; pagina = pagina; marco = marco }) t
      else t

  -- The frame of a page, and the cache after it was asked for.
  unfoldable pub obtener_marco : ℕ → ℕ → ℤ → Tlb → ℤ × Tlb
  unfolding buscar_en_tlb buscar_en_tabla_de_paginas acierto fallo_tlb
  obtener_marco ahora pid pagina t =
      let marco = buscar_en_tlb pid pagina t.entradas in
      if eqb_ℤ marco (negsuc 0)
      then (let m = buscar_en_tabla_de_paginas memoria pid pagina in
          (m, fallo_tlb ahora pid pagina m t))
      else (marco, acierto pid pagina t)

  unfoldable pub calcular_direccion_fisica : ℕ → ℕ → ℕ → ℤ → Tlb → ℤ × Tlb
  unfolding obtener_marco direccion_fisica numero_pagina
  calcular_direccion_fisica tam_pagina ahora pid dir t =
      let s = obtener_marco ahora pid (numero_pagina tam_pagina dir) t in
      (direccion_fisica tam_pagina s.0 dir, s.1)
