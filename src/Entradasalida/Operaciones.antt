-- ===== src/Entradasalida/Operaciones.antt =====
-- entradasalida/src/operacionesFS.c: the operations on the files. The size that a
-- truncation asks for is a natural number; the calls that write the metadata and the directory succeed.
use tp_sistemas_operativos_c.Common.{
  ℕ, zero, suc, ◌+◌, ◌-◌, ◌*◌, String, Bool, false, ◌||◌, List, [], ◌∷◌, none, some, if◌then◌else◌,
  ltb, length, take, replicate, get, put, remove, string_eq, str_eq, ltb_ℤ, ℤ, pos, ◌+ℤ◌,
}
use tp_sistemas_operativos_c.Memoria.Marcos.{Bitarray}
use tp_sistemas_operativos_c.Memoria.Bytes.{copiar, leer}
use tp_sistemas_operativos_c.Entradasalida.{
  Metadata, Fs, Salida, sigue, sale, indefinido, sin_turnos, ◌>>=◌, bloques_para, cantidad,
}
use tp_sistemas_operativos_c.Entradasalida.Bitmap.{
  limpiar_desde, limpiar_hasta, marcar_desde, get_bit, verificar_bitmap,
}
use tp_sistemas_operativos_c.Entradasalida.Diccionario.{
  Diccionario, espacio_libre, cargar_diccionario_nuevo,
}
use tp_sistemas_operativos_c.Entradasalida.Compactacion.{compactacion_bloques}

-- `access(ruta, F_OK) == 0`
unfoldable pub existe : String → List String → Bool
existe nombre [] = false
existe nombre (n ∷ l) = str_eq n nombre || existe nombre l

unfoldable pub borrar_de : String → List String → List String
borrar_de nombre [] = []
borrar_de nombre (n ∷ l) = if str_eq n nombre then l else n ∷ borrar_de nombre l

-- `memcpy` of zeros.
unfoldable pub borrar : ℕ → ℕ → (ℕ → ℕ) → ℕ → ℕ
unfolding copiar
borrar d n f = copiar d (replicate n 0) f

module _ (a : Bitarray) (block_size block_count : ℕ) where
  unfoldable pub crear_archivo : String → Fs a.B → Fs a.B
  unfolding get_bit existe cargar_diccionario_nuevo
  crear_archivo nombre s = elim (get_bit a block_count s.bitmap) [
    | none ↦ s
    | some inicial ↦
        if existe nombre s.directorio
        then s
        else cargar_diccionario_nuevo nombre inicial
            (record s { bitmap = a.set_bit s.bitmap inicial; directorio = nombre ∷ s.directorio })
  ]

  unfoldable pub delete_archivo : String → Fs a.B → Fs a.B
  unfolding cantidad limpiar_desde borrar borrar_de
  delete_archivo nombre s = elim (get nombre s.diccionario) [
    | none ↦ s
    | some f ↦
        let n = cantidad block_size f in
        record s {
          bitmap = limpiar_desde a s.bitmap f.bloque_inicial n;
          bloques = borrar (f.bloque_inicial * block_size) (n * block_size) s.bloques;
          diccionario = remove nombre s.diccionario;
          directorio = borrar_de nombre s.directorio;
        }
  ]

  -- A file that gives up `n` blocks.
  unfoldable pub achicar : Metadata → ℕ → ℕ → Fs a.B → Fs a.B
  unfolding cantidad limpiar_hasta borrar
  achicar f tam n s = record s {
    bloques = borrar (block_size * f.bloque_inicial + tam) (n * block_size) s.bloques;
    bitmap = limpiar_hasta a s.bitmap (f.bloque_inicial + cantidad block_size f - 1) n;
  }

  unfoldable pub fijar_tam : String → Metadata → ℕ → Fs a.B → Fs a.B
  fijar_tam nombre f tam s = record s {
    diccionario = put nombre (record f { tam_archivo = tam }) s.diccionario;
  }

  module _ (elementos : Diccionario → Diccionario) (memcpy : ℕ → ℕ → ℕ → (ℕ → ℕ) → ℕ → ℕ) where
    -- A file that asks for `n` blocks more; `otra_vez` is the truncation after a compaction.
    unfoldable pub agrandar :
        (Fs a.B → Salida (Fs a.B)) → String → Metadata → ℕ → ℕ → Fs a.B → Salida (Fs a.B)
    unfolding cantidad verificar_bitmap marcar_desde fijar_tam espacio_libre compactacion_bloques
    agrandar otra_vez nombre f tam n s =
        let arch = cantidad block_size f in
        let ultimo_bloque = f.bloque_inicial + arch - 1 in
        let espacio = espacio_libre block_size elementos block_count s.diccionario arch in
        if verificar_bitmap a block_count s.bitmap ultimo_bloque n
        then sigue (
            fijar_tam nombre f tam
              (record s { bitmap = marcar_desde a s.bitmap (suc ultimo_bloque) n }))
        else if ltb_ℤ espacio (pos (arch + n))
        then sale
        else (compactacion_bloques a block_size block_count elementos memcpy nombre f s
            >>= otra_vez)

    unfoldable pub truncar :
        (Fs a.B → Salida (Fs a.B)) → String → ℕ → Metadata → Fs a.B → Salida (Fs a.B)
    unfolding bloques_para cantidad achicar agrandar fijar_tam
    truncar otra_vez nombre tam f s =
        let ingresados = bloques_para block_size tam in
        let arch = cantidad block_size f in
        if ltb ingresados arch
        then sigue (fijar_tam nombre f tam (achicar f tam (arch - ingresados) s))
        else if ltb arch ingresados
        then agrandar otra_vez nombre f tam (ingresados - arch) s
        else sigue (fijar_tam nombre f tam s)

    -- The first argument bounds how often it calls itself.
    unfoldable pub truncate_archivo : ℕ → String → ℕ → Fs a.B → Salida (Fs a.B)
    unfolding bloques_para truncar
    truncate_archivo zero nombre tam s = sin_turnos
    truncate_archivo (suc turnos) nombre tam s =
        if ltb block_count (bloques_para block_size tam)
        then sigue s
        else elim (get nombre s.diccionario) [
          | none ↦ sigue s
          | some f ↦ truncar (truncate_archivo turnos nombre tam) nombre tam f s
        ]

  -- `memcpy` of `tam` bytes to the blocks: outside them, of a negative size, or from fewer bytes than
  -- that, it is not defined.
  unfoldable pub copiar_a : ℤ → ℤ → List ℕ → Fs a.B → Salida (Fs a.B)
  unfolding copiar
  copiar_a (pos d) (pos n) dato s =
      if ltb (block_count * block_size) (d + n) || ltb (length dato) n
      then indefinido
      else sigue (record s { bloques = copiar d (take n dato) s.bloques })
  copiar_a _ _ dato s = indefinido

  unfoldable pub copiar_de : ℤ → ℤ → Fs a.B → Salida (List ℕ)
  unfolding leer
  copiar_de (pos d) (pos n) s =
      if ltb (block_count * block_size) (d + n) then indefinido else sigue (leer d n s.bloques)
  copiar_de _ _ s = indefinido

  -- The bytes to write are the payload of an answer of the memory, which may be too short. The sums
  -- are taken to be in the range of an `int`.
  unfoldable pub escribir_archivo : String → ℤ → ℤ → List ℕ → Fs a.B → Salida (Fs a.B)
  unfolding copiar_a
  escribir_archivo nombre puntero tam dato s = elim (get nombre s.diccionario) [
    | none ↦ sale
    | some f ↦
        if ltb_ℤ (pos f.tam_archivo) (puntero +ℤ tam)
        then sale
        else copiar_a (pos (f.bloque_inicial * block_size) +ℤ puntero) tam dato s
  ]

  unfoldable pub leer_archivo : String → ℤ → ℤ → Fs a.B → Salida (List ℕ)
  unfolding copiar_de
  leer_archivo nombre puntero tam s = elim (get nombre s.diccionario) [
    | none ↦ sale
    | some f ↦ if ltb_ℤ (pos f.tam_archivo) (puntero +ℤ tam) then sale else copiar_de puntero tam s
  ]
