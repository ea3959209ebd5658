-- ===== src/Memoria/Bytes.antt =====
-- memoria/src/memoria-utils/memoria.c: reading and writing the bytes of the memory, page by page.
-- The bytes are a function of the address; `tam_memoria` is the size of the block that holds them.
-- The order in which so-commons lists the keys of a dictionary is the argument `claves`.
pub mod Recorrido
pub mod Vuelta
pub mod Turnos
pub mod Accesos
pub mod Contrato
pub mod Tests
use tp_sistemas_operativos_c.Common.{
  ℕ, zero, suc, ◌+◌, ◌-◌, ◌*◌, ◌/◌, ◌%◌, ◌==◌, true, false, List, [], ◌∷◌, ◌++◌, Option, none, some,
  length, take, drop, if◌then◌else◌, ltb, get, nat_eq, pos,
}
use tp_sistemas_operativos_c.Memoria.Procesos.{
  Proceso, Memoria, proceso_por_pid, buscar_direccion_fisica_en_tabla_de_paginas,
}

-- How an access ends: `fuera`, it leaves the block of the memory; `sin_turnos`, the loop has not
-- ended after the turns that it was given.
pub data Acceso (A : Type 0) : Type 0 where
  hecho : A → Acceso A
  fuera sin_turnos : Acceso A

infixl 5 ◌>>=◌
abbrev pub ◌>>=◌ : {A B : Type 0} → Acceso A → (A → Acceso B) → Acceso B
hecho a >>= f = f a
fuera >>= f = fuera
sin_turnos >>= f = sin_turnos

-- `memcpy` to the memory and from it.
unfoldable pub copiar : ℕ → List ℕ → (ℕ → ℕ) → ℕ → ℕ
copiar d [] f = f
copiar d (b ∷ bs) f = copiar (suc d) bs (λ a. if a == d then b else f a)

unfoldable pub leer : ℕ → ℕ → (ℕ → ℕ) → List ℕ
leer d zero f = []
leer d (suc n) f = f d ∷ leer (suc d) n f

-- The bytes of one turn: those that are left, or what is left of the frame.
abbrev pub de_un_turno : ℕ → ℕ → ℕ
de_un_turno faltan resto = if ltb resto faltan then resto else faltan

-- The last page with that frame in the order of the keys; `none` is the -1.
unfoldable pub buscar_en_claves : List (ℕ × ℕ) → ℕ → List ℕ → Option ℕ → Option ℕ
buscar_en_claves t marco [] pagina_return = pagina_return
buscar_en_claves t marco (pagina ∷ ps) pagina_return = elim (get pagina t) [
  | none ↦ buscar_en_claves t marco ps pagina_return
  | some x ↦ buscar_en_claves t marco ps (if x == marco then some pagina else pagina_return)
]

module _ (claves : List (ℕ × ℕ) → List ℕ) where
  unfoldable pub buscar_pagina_por_pid_y_marco : Proceso → ℕ → Option ℕ
  unfolding buscar_en_claves
  buscar_pagina_por_pid_y_marco p marco =
      buscar_en_claves p.tabla_de_paginas marco (claves p.tabla_de_paginas) none

-- `numPagina++`
abbrev pub tras_pagina : Option ℕ → ℕ
tras_pagina none = 0
tras_pagina (some pagina) = suc pagina

module _ (tam_pagina tam_memoria : ℕ) where
  -- The loop that writes: `siguiente` is the page after `++`, and `marcos` finds its frame.
  unfoldable pub escribir_desde : (ℕ → Option ℕ) → ℕ → ℕ → ℕ → ℕ → List ℕ → (ℕ → ℕ) → Acceso (ℕ → ℕ)
  unfolding copiar
  escribir_desde marcos turnos marco offset siguiente [] f = hecho f
  escribir_desde marcos zero marco offset siguiente (b ∷ bs) f = sin_turnos
  escribir_desde marcos (suc turnos) marco offset siguiente (b ∷ bs) f =
      let datos = b ∷ bs in
      let n = de_un_turno (length datos) (tam_pagina - offset) in
      let d = marco * tam_pagina + offset in
      let f' = copiar d (take n datos) f in
      elim (ltb tam_memoria (d + n)) [
        | true ↦ fuera
        | false ↦ elim (marcos siguiente) [
          | none ↦ hecho f'
          | some marco' ↦ escribir_desde marcos turnos marco' 0 (suc siguiente) (drop n datos) f'
        ]
      ]

  -- The loop that reads: the result is the part of the answer that was filled in.
  unfoldable pub leer_desde : (ℕ → Option ℕ) → ℕ → ℕ → ℕ → ℕ → ℕ → (ℕ → ℕ) → Acceso (List ℕ)
  unfolding leer
  leer_desde marcos turnos marco offset siguiente zero f = hecho []
  leer_desde marcos zero marco offset siguiente (suc m) f = sin_turnos
  leer_desde marcos (suc turnos) marco offset siguiente (suc m) f =
      let n = de_un_turno (suc m) (tam_pagina - offset) in
      let d = marco * tam_pagina + offset in
      let bs = leer d n f in
      elim (ltb tam_memoria (d + n)) [
        | true ↦ fuera
        | false ↦ elim (marcos siguiente) [
          | none ↦ hecho bs
          | some marco' ↦
              leer_desde marcos turnos marco' 0 (suc siguiente) (suc m - n) f >>= λ rest.
              hecho (bs ++ rest)
        ]
      ]

  module _ {B : Type 0} (claves : List (ℕ × ℕ) → List ℕ) where
    abbrev pub marcos_de : ℕ → Memoria B → ℕ → Option ℕ
    marcos_de pid m n = buscar_direccion_fisica_en_tabla_de_paginas pid (pos n) m

    unfoldable pub escribir_memoria : ℕ → ℕ → List ℕ → Memoria B → (ℕ → ℕ) → Acceso (ℕ → ℕ)
    unfolding proceso_por_pid buscar_pagina_por_pid_y_marco escribir_desde
    escribir_memoria pid direccion dato m f =
        let marco = direccion / tam_pagina in
        elim (proceso_por_pid pid m.procesos) [
          | none ↦ hecho f
          | some p ↦ elim (buscar_pagina_por_pid_y_marco claves p marco) [
            | none ↦ hecho f
            | some pagina ↦
                escribir_desde (marcos_de pid m) (length dato) marco (direccion % tam_pagina)
                  (suc pagina) dato f
          ]
        ]

    -- `none` is NULL. A page that is not found is -1, so the loop goes on to page 0.
    unfoldable pub obtener_dato_memoria : ℕ → ℕ → ℕ → Memoria B → (ℕ → ℕ) → Acceso (Option (List ℕ))
    unfolding proceso_por_pid buscar_pagina_por_pid_y_marco leer_desde
    obtener_dato_memoria pid direccion tam_dato m f =
        let marco = direccion / tam_pagina in
        elim (proceso_por_pid pid m.procesos) [
          | none ↦ hecho none
          | some p ↦
              leer_desde (marcos_de pid m) tam_dato marco (direccion % tam_pagina)
                (tras_pagina (buscar_pagina_por_pid_y_marco claves p marco)) tam_dato f
              >>= λ bs. hecho (some bs)
        ]
