-- ===== src/Entradasalida/Compactacion.antt =====
-- entradasalida/src/bloques.c: the compaction. The file that grows is taken off the bitmap, the others
-- are moved to the front stretch by stretch, and it is put behind them. `memcpy` is the C
-- library's, from a position to another of the same bytes; here the stretches may overlap.
pub mod Archivos
pub mod Tramo
pub mod Bits
pub mod Avance
pub mod Vueltas
pub mod Recorrido
pub mod Compacto
pub mod Contrato
use tp_sistemas_operativos_c.Common.{
  ℕ, zero, suc, ◌+◌, ◌-◌, ◌*◌, ◌==◌, String, Bool, true, false, List, ◌++◌, take, replicate, Option,
  none, some, if◌then◌else◌, ltb, put, string_eq,
}
use tp_sistemas_operativos_c.Memoria.Marcos.{Bitarray}
use tp_sistemas_operativos_c.Memoria.Bytes.{copiar, leer}
use tp_sistemas_operativos_c.Entradasalida.{
  Metadata, Fs, Salida, sigue, indefinido, sin_turnos, ◌>>=◌, cantidad,
}
use tp_sistemas_operativos_c.Entradasalida.Bitmap.{limpiar_desde, marcar_desde, get_bit}
use tp_sistemas_operativos_c.Entradasalida.Diccionario.{Diccionario, get_fcb_x_inicio}

-- How a turn of the loop ends: `otra`, at that bit; `fin`, out of the loop; `vuelve`, out of the
-- function, since no file starts where one should.
pub data Vuelta (A : Type 0) : Type 0 where
  otra : ℕ → A → Vuelta A
  fin vuelve : A → Vuelta A

-- The loop over the free bits: the first set one, or the bit at which `n` run out.
unfoldable pub saltar_libres : (ℕ → Bool) → ℕ → ℕ → ℕ
saltar_libres test bit zero = bit
saltar_libres test bit (suc n) = if test bit then bit else saltar_libres test (suc bit) n

-- The loop over the set bits has no other bound, so it also reads the bit behind the last block, which
-- is what `test` gives for it. With `none` it has not ended after those turns.
unfoldable pub contar_contiguos : (ℕ → Bool) → ℕ → ℕ → Option ℕ
contar_contiguos test zero bit = none
contar_contiguos test (suc turnos) bit = elim (test bit) [
  | false ↦ some 0
  | true ↦ elim (contar_contiguos test turnos (suc bit)) [ none ↦ none | some n ↦ some (suc n) ]
]

module _ (block_size : ℕ) (elementos : Diccionario → Diccionario) where
  -- The loop over the files of a stretch of `size` blocks: the Boolean is whether it got to the end.
  unfoldable pub mover_fcbs : ℕ → ℕ → ℕ → ℕ → ℕ → Diccionario → Salida (Bool × Diccionario)
  unfolding get_fcb_x_inicio cantidad
  mover_fcbs zero contiguo hueco size j d = if ltb j size then sin_turnos else sigue (true, d)
  mover_fcbs (suc turnos) contiguo hueco size j d = elim (ltb j size) [
    | false ↦ sigue (true, d)
    | true ↦ elim (get_fcb_x_inicio elementos d (contiguo + j)) [
      | none ↦ sigue (false, d)
      | some (nombre, f) ↦
          mover_fcbs turnos contiguo hueco size (j + cantidad block_size f)
            (put nombre (record f { bloque_inicial = hueco + j }) d)
    ]
  ]

module _ (a : Bitarray) (block_size block_count : ℕ) (elementos : Diccionario → Diccionario)
    (memcpy : ℕ → ℕ → ℕ → (ℕ → ℕ) → ℕ → ℕ) where
  -- The bytes and the bits of a stretch of `n` blocks that moves from `c` to `hueco`.
  unfoldable pub mover_tramo : ℕ → ℕ → ℕ → Fs a.B → Fs a.B
  unfolding marcar_desde limpiar_desde
  mover_tramo hueco c n s = record s {
    bloques = memcpy (hueco * block_size) (c * block_size) (n * block_size) s.bloques;
    bitmap = limpiar_desde a (marcar_desde a s.bitmap hueco n) (hueco + n) (c - hueco);
  }

  tras_mover : ℕ → ℕ → ℕ → Fs a.B → Bool × Diccionario → Vuelta (Fs a.B)
  unfolding mover_tramo
  tras_mover hueco c n s (true, d) =
      otra (c + n) (mover_tramo hueco c n (record s { diccionario = d }))
  tras_mover hueco c n s (false, d) = vuelve (record s { diccionario = d })

  -- The stretch from `c` on, with the number of its blocks.
  unfoldable pub compactar_contiguos : ℕ → ℕ → Fs a.B → Option ℕ → Salida (Vuelta (Fs a.B))
  unfolding mover_fcbs tras_mover
  compactar_contiguos hueco c s none = sin_turnos
  compactar_contiguos hueco c s (some zero) = sigue (fin s)
  compactar_contiguos hueco c s (some (suc n)) =
      mover_fcbs block_size elementos (suc n) c hueco (suc n) 0 s.diccionario >>= λ r.
      sigue (tras_mover hueco c (suc n) s r)

  unfoldable pub compactar_hueco : ℕ → ℕ → Fs a.B → Salida (Vuelta (Fs a.B))
  unfolding contar_contiguos compactar_contiguos
  compactar_hueco hueco c s =
      if c == block_count
      then sigue (fin s)
      else compactar_contiguos hueco c s
          (contar_contiguos (a.test_bit s.bitmap) (suc block_count) c)

  -- One turn of the loop. With no free bit the code goes on from the bit -1.
  unfoldable pub compactar_tramo : Fs a.B → Salida (Vuelta (Fs a.B))
  unfolding get_bit saltar_libres compactar_hueco
  compactar_tramo s = elim (get_bit a block_count s.bitmap) [
    | none ↦ indefinido
    | some hueco ↦
        compactar_hueco hueco (saltar_libres (a.test_bit s.bitmap) hueco (block_count - hueco)) s
  ]

  -- `true` when the loop ended, `false` when the function returned.
  unfoldable pub compactar_desde : ℕ → ℕ → Fs a.B → Salida (Bool × Fs a.B)
  unfolding compactar_tramo
  compactar_desde zero bit s = if ltb bit block_count then sin_turnos else sigue (true, s)
  compactar_desde (suc turnos) bit s = elim (ltb bit block_count) [
    | false ↦ sigue (true, s)
    | true ↦ compactar_tramo s >>= λ v. elim v [
      | otra bit' s' ↦ compactar_desde turnos bit' s'
      | fin s' ↦ sigue (true, s')
      | vuelve s' ↦ sigue (false, s')
    ]
  ]

  -- The file behind the others: the buffer holds its `total` blocks, and zeros up to the size of the disk.
  unfoldable pub ubicar_al_final : String → Metadata → ℕ → List ℕ → Fs a.B → Salida (Fs a.B)
  unfolding get_bit copiar marcar_desde
  ubicar_al_final nombre f total buffer s = elim (get_bit a block_count s.bitmap) [
    | none ↦ indefinido
    | some ultimobit ↦ sigue (record s {
      diccionario = put nombre (record f { bloque_inicial = ultimobit }) s.diccionario;
      bloques =
          copiar (ultimobit * block_size) (take ((block_count - ultimobit) * block_size) buffer)
            s.bloques;
      bitmap = marcar_desde a s.bitmap ultimobit total;
    })
  ]

  unfoldable pub compactacion_bloques : String → Metadata → Fs a.B → Salida (Fs a.B)
  unfolding cantidad limpiar_desde leer compactar_desde ubicar_al_final
  compactacion_bloques nombre f s =
      let total = cantidad block_size f in
      let buffer =
        leer (f.bloque_inicial * block_size) (total * block_size) s.bloques
        ++ replicate ((block_count - total) * block_size) 0 in
      compactar_desde (suc block_count) 0
        (record s { bitmap = limpiar_desde a s.bitmap f.bloque_inicial total })
      >>= λ (termino, s'). if termino then ubicar_al_final nombre f total buffer s' else sigue s'
