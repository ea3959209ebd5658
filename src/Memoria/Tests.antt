-- ===== src/Memoria/Tests.antt =====
-- The memory with four frames, of which the bit array is the function from a bit to its value.
use mathlib.Core.Path.{subst}
use tp_sistemas_operativos_c.Common.{
  none, get_elem?, ℕ, ◌+◌, ◌-◌, ◌*◌, ◌==◌, ◌≡◌, ◌≢◌, ◌≤◌, get, nat_eq, refl, Bool, true, false,
  List, [], ◌∷◌, some, if◌then◌else◌, arith, pos,
}
use tp_sistemas_operativos_c.Memoria.Marcos.{Bitarray, cantidad_marcos_libres}
use tp_sistemas_operativos_c.Memoria.Procesos.{
  Proceso, Memoria, menos_1, resize_success, redimensionar_proceso, proceso_por_pid,
  obtener_tamano_proceso, crear_proceso, buscar_direccion_fisica_en_tabla_de_paginas,
  obtener_instruccion, instrucciones_cargadas,
}
use tp_sistemas_operativos_c.Memoria.Carga.{archivo_de, obtener_instruccion-crear_proceso}
use tp_sistemas_operativos_c.Memoria.Reparto.{veces_en, IsDensa, libre}
use tp_sistemas_operativos_c.Memoria.Reparto.Resize.{
  paginas, redimensionar_proceso-crece, redimensionar_proceso-falla, redimensionar_proceso-achica,
}

abbrev pub cuatro : Bitarray
cuatro = record {
  B = ℕ → Bool;
  max_bit = λ b. 4;
  test_bit = λ b i. b i;
  set_bit = λ b i j. if i == j then true else b j;
  clean_bit = λ b i j. if i == j then false else b j;
  max_bit-set_bit = λ b i. refl;
  max_bit-clean_bit = λ b i. refl;
  test_bit-set_bit = λ b i j h. refl;
  test_bit-clean_bit = λ b i j h. refl;
}

abbrev pub marcos : List (ℕ × ℕ) → List ℕ
marcos [] = []
marcos ((pagina, marco) ∷ t) = marco ∷ marcos t

abbrev vacio : Proceso
vacio = record { pid = 1; instrucciones = []; tabla_de_paginas = [] }

abbrev con_una : Proceso
con_una = record { pid = 1; instrucciones = []; tabla_de_paginas = (0, 0) ∷ [] }

abbrev pub libres : ℕ → Bool
libres i = true

abbrev pub con : Proceso → (ℕ → Bool) → Memoria (ℕ → Bool)
con p b = record { max_procesos = 4; procesos = p ∷ []; marcos_libres = b }

esta : (p : Proceso) (b : ℕ → Bool) → p.pid ≡ 1 → proceso_por_pid 1 (con p b).procesos ≡ some p
unfolding proceso_por_pid
esta p b h = rw h

vacio-IsDensa : IsDensa []
unfolding get
vacio-IsDensa j l = refl

hay_tres : 3 ≤ cantidad_marcos_libres cuatro libres
unfolding cantidad_marcos_libres
hay_tres = ground arith

redimensionar_proceso-crece_example :
    let r = redimensionar_proceso cuatro marcos 32 128 1 (pos 70) (con vacio libres) in
    (r.0 ≡ resize_success)
    × (obtener_tamano_proceso 32 1 r.1 ≡ pos (paginas 32 70 * 32))
    × (cantidad_marcos_libres cuatro r.1.marcos_libres + (paginas 32 70 - 0)
        ≡ cantidad_marcos_libres cuatro libres)
    × ((f : ℕ)
        → veces_en f r.1.procesos + libre cuatro r.1.marcos_libres f
          ≡ veces_en f (con vacio libres).procesos + libre cuatro libres f)
redimensionar_proceso-crece_example =
    redimensionar_proceso-crece cuatro marcos 32 128 1 70 vacio (con vacio libres)
      (esta vacio libres refl) vacio-IsDensa (ground arith) (ground arith) hay_tres

abbrev ninguno : ℕ → Bool
ninguno i = false

es-IsDensa :
    (p : Proceso)
    → proceso_por_pid 1 (con vacio ninguno).procesos ≡ some p
    → IsDensa p.tabla_de_paginas
unfolding proceso_por_pid
es-IsDensa p h =
    let e : vacio ≡ p = ground arith in subst (λ q. IsDensa q.tabla_de_paginas) e vacio-IsDensa

falla : (redimensionar_proceso cuatro marcos 32 128 1 (pos 70) (con vacio ninguno)).0 ≡ menos_1
unfolding redimensionar_proceso
falla = refl

redimensionar_proceso-falla_example :
    (redimensionar_proceso cuatro marcos 32 128 1 (pos 70) (con vacio ninguno)).1
    ≡ con vacio ninguno
redimensionar_proceso-falla_example =
    redimensionar_proceso-falla cuatro marcos 32 128 1 (pos 70) (con vacio ninguno) es-IsDensa falla

abbrev con_dos : Proceso
con_dos = record { pid = 1; instrucciones = []; tabla_de_paginas = (0, 0) ∷ (1, 1) ∷ [] }

redimensionar_proceso-achica_example :
    let r = redimensionar_proceso cuatro marcos 32 128 1 (pos 0) (con con_dos ninguno) in
    (r.0 ≡ resize_success)
    × (cuatro.test_bit r.1.marcos_libres 0 ≡ true)
    × (buscar_direccion_fisica_en_tabla_de_paginas 1 (pos 0) r.1 ≡ some 0)
    × ((j : ℕ) → 0 ≢ j → cuatro.test_bit r.1.marcos_libres j ≡ false)
    × (obtener_tamano_proceso 32 1 r.1 ≡ pos (2 * 32))
unfolding get
redimensionar_proceso-achica_example =
    redimensionar_proceso-achica cuatro marcos 32 128 1 0 0 0 con_dos (con con_dos ninguno)
      (esta con_dos ninguno refl) (ground arith) (ground arith) refl refl (ground arith)

-- SUB and EXIT
abbrev dos_lineas : List (List ℕ)
dos_lineas = (83 ∷ 85 ∷ 66 ∷ []) ∷ (69 ∷ 88 ∷ 73 ∷ 84 ∷ []) ∷ []

no_esta : proceso_por_pid 2 (con vacio libres).procesos ≡ none
unfolding proceso_por_pid
no_esta = refl

obtener_instruccion-crear_proceso_example :
    let r = crear_proceso (some (archivo_de dos_lineas)) 2 (con vacio libres) in
    (r.0 ≡ some (instrucciones_cargadas 2))
    × (obtener_instruccion 2 (pos 1) r.1 ≡ get_elem? dos_lineas 1)
    × (obtener_instruccion 1 (pos 1) r.1 ≡ obtener_instruccion 1 (pos 1) (con vacio libres))
obtener_instruccion-crear_proceso_example =
    obtener_instruccion-crear_proceso dos_lineas 2 1 1 (con vacio libres) (ground arith)
      (ground arith) (ground arith) no_esta (ground arith)
