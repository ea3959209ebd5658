-- ===== src/Memoria/Procesos.antt =====
-- memoria/src/memoria-utils/procesos.c and memoria.c: the processes in memory and their page tables.
-- A page table is the list of its pages and frames. The order in which so-commons lists the
-- elements of a dictionary is the argument `elementos`.
use tp_sistemas_operativos_c.Common.{
  ℕ, zero, suc, ◌+◌, ◌-◌, ◌*◌, ◌/◌, ◌==◌, Bool, true, false, ◌||◌, List, [], ◌∷◌, ◌++◌, Option,
  none, some, length, get_elem?, if◌then◌else◌, ltb, leb, ℤ, pos, negsuc, get, put, nat_eq,
}
use tp_sistemas_operativos_c.Memoria.Marcos.{Bitarray, cantidad_marcos_libres, buscar_marco_libre}

-- `Proceso`; the instructions are the lines of its file, `cant_instrucciones` their number.
pub record Proceso : Type 0 where
  pub pid : ℕ
  pub instrucciones : List (List ℕ)
  pub tabla_de_paginas : List (ℕ × ℕ)

-- `Memoria`, less the bytes, with `marcosLibres`; `cant_procesos` is the length of the list.
pub record Memoria (B : Type 0) : Type 0 where
  pub max_procesos : ℕ
  pub procesos : List Proceso
  pub marcos_libres : B

-- What `redimensionarProceso` returns: -1, 0, and the constant RESIZE_SUCCESS.
pub data Redimension : Type 0 where
  menos_1 sin_cambio resize_success : Redimension

-- The answers to the kernel of `crearProceso`.
pub data Respuesta : Type 0 where
  archivo_no_encontrado instrucciones_cargadas : ℕ → Respuesta

unfoldable pub proceso_por_pid : ℕ → List Proceso → Option Proceso
proceso_por_pid pid [] = none
proceso_por_pid pid (p ∷ ps) = if p.pid == pid then some p else proceso_por_pid pid ps

-- The writes through the pointer that `procesoPorPID` returned.
unfoldable pub con_tabla : ℕ → List (ℕ × ℕ) → List Proceso → List Proceso
con_tabla pid t [] = []
con_tabla pid t (p ∷ ps) =
    if p.pid == pid then record p { tabla_de_paginas = t } ∷ ps else p ∷ con_tabla pid t ps

-- `fgets` with room for `n` bytes: up to the end of the line, with its 10, and what follows.
unfoldable pub fgets : ℕ → List ℕ → List ℕ × List ℕ
fgets zero bs = ([], bs)
fgets (suc n) [] = ([], [])
fgets (suc n) (b ∷ bs) = if b == 10 then (b ∷ [], bs) else (let r = fgets n bs in (b ∷ r.0, r.1))

-- `sacar_salto_linea` and the copy of the text: up to the first 10 or 0.
unfoldable pub sacar_salto_linea : List ℕ → List ℕ
sacar_salto_linea [] = []
sacar_salto_linea (b ∷ bs) = if b == 10 || b == 0 then [] else b ∷ sacar_salto_linea bs

-- The loop of `leer_archivo`, for `n` lines at most.
unfoldable pub leer_lineas : ℕ → List ℕ → List (List ℕ)
unfolding fgets sacar_salto_linea
leer_lineas zero bs = []
leer_lineas (suc n) [] = []
leer_lineas (suc n) (b ∷ bs) =
    let r = fgets 254 (b ∷ bs) in sacar_salto_linea r.0 ∷ leer_lineas n r.1

-- The file's bytes are the argument; `none` is a file that is not there.
unfoldable pub crear_proceso :
    {B : Type 0} → Option (List ℕ) → ℕ → Memoria B → Option Respuesta × Memoria B
unfolding leer_lineas
crear_proceso archivo pid m =
    if leb m.max_procesos (length m.procesos) then (none, m) else elim archivo [
      | none ↦ (some (archivo_no_encontrado pid), m)
      | some texto ↦ (
        some (instrucciones_cargadas pid),
        record m {
          procesos =
              m.procesos
              ++ (record {
                pid = pid;
                instrucciones = leer_lineas 1000 texto;
                tabla_de_paginas = [];
              }
                  ∷ []);
        },
      )
    ]

unfoldable pub obtener_instruccion : {B : Type 0} → ℕ → ℤ → Memoria B → Option (List ℕ)
unfolding proceso_por_pid
obtener_instruccion pid (negsuc n) m = none
obtener_instruccion pid (pos n) m = elim (proceso_por_pid pid m.procesos) [
  | none ↦ none
  | some p ↦ get_elem? p.instrucciones n
]

-- -1 for a process that is not there.
unfoldable pub obtener_tamano_proceso : {B : Type 0} → ℕ → ℕ → Memoria B → ℤ
unfolding proceso_por_pid
obtener_tamano_proceso tam_pagina pid m = elim (proceso_por_pid pid m.procesos) [
  | none ↦ negsuc 0
  | some p ↦ pos (length p.tabla_de_paginas * tam_pagina)
]

-- The frame of a page, or -1 (`none`).
unfoldable pub buscar_direccion_fisica_en_tabla_de_paginas :
    {B : Type 0} → ℕ → ℤ → Memoria B → Option ℕ
unfolding proceso_por_pid
buscar_direccion_fisica_en_tabla_de_paginas pid (negsuc n) m = none
buscar_direccion_fisica_en_tabla_de_paginas pid (pos n) m = elim (proceso_por_pid pid m.procesos) [
  | none ↦ none
  | some p ↦ get n p.tabla_de_paginas
]

module _ (a : Bitarray) where
  -- The loop that adds `n` pages from the page `pagina` on: whether a frame was found for each, the
  -- page table and the frames.
  unfoldable pub agregar_paginas : ℕ → ℕ → List (ℕ × ℕ) → a.B → Bool × List (ℕ × ℕ) × a.B
  unfolding buscar_marco_libre
  agregar_paginas zero pagina t b = (true, t, b)
  agregar_paginas (suc n) pagina t b = elim (buscar_marco_libre a b) [
    | none ↦ (false, t, b)
    | some marco ↦ agregar_paginas n (suc pagina) (put pagina marco t) (a.clean_bit b marco)
  ]

  -- The loop that frees `n` pages; the page table stays as it is.
  unfoldable pub quitar_paginas : Option ℕ → ℕ → a.B → a.B
  quitar_paginas primero zero b = b
  quitar_paginas none (suc n) b = b
  quitar_paginas (some marco) (suc n) b = quitar_paginas (some marco) n (a.set_bit b marco)

  unfoldable pub redimensionar_en :
      (List (ℕ × ℕ) → List ℕ) → ℕ → ℕ → Proceso → Memoria a.B → Redimension × Memoria a.B
  unfolding cantidad_marcos_libres agregar_paginas quitar_paginas con_tabla
  redimensionar_en elementos tam_pagina nuevo_tam p m =
      let t = p.tabla_de_paginas in
      let cant_paginas = (nuevo_tam + (tam_pagina - 1)) / tam_pagina in
      let diff = cant_paginas - length t in
      let r = agregar_paginas diff (length t) t m.marcos_libres in
      if length t == cant_paginas
      then (sin_cambio, m)
      else if ltb (cantidad_marcos_libres a m.marcos_libres) diff
      then (menos_1, m)
      else if ltb 0 diff
      then (
        if r.0 then resize_success else menos_1,
        record m { procesos = con_tabla p.pid r.1 m.procesos; marcos_libres = r.2 },
      )
      else (
        resize_success,
        record m {
          marcos_libres =
              quitar_paginas (get_elem? (elementos t) 0) (length t - cant_paginas) m.marcos_libres;
        },
      )

  unfoldable pub redimensionar_proceso :
      (List (ℕ × ℕ) → List ℕ) → ℕ → ℕ → ℕ → ℤ → Memoria a.B → Redimension × Memoria a.B
  unfolding proceso_por_pid redimensionar_en
  redimensionar_proceso elementos tam_pagina tam_memoria pid (negsuc n) m = (menos_1, m)
  redimensionar_proceso elementos tam_pagina tam_memoria pid (pos nuevo_tam) m =
      elim (proceso_por_pid pid m.procesos) [
        | none ↦ (menos_1, m)
        | some p ↦
            if ltb tam_memoria nuevo_tam
            then (menos_1, m)
            else redimensionar_en elementos tam_pagina nuevo_tam p m
      ]

  -- The frames of a process that ends: each turn sets the bit of the first of them again.
  unfoldable pub finalizar_proceso : (List (ℕ × ℕ) → List ℕ) → ℕ → Memoria a.B → Memoria a.B
  unfolding proceso_por_pid quitar_paginas
  finalizar_proceso elementos pid m = elim (proceso_por_pid pid m.procesos) [
    | none ↦ m
    | some p ↦ record m {
      marcos_libres =
          quitar_paginas (get_elem? (elementos p.tabla_de_paginas) 0)
            (length (elementos p.tabla_de_paginas)) m.marcos_libres;
    }
  ]
