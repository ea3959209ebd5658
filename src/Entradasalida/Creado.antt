-- ===== src/Entradasalida/Creado.antt =====
-- operacionesFS.c: the file that a creation makes, and what a truncation to no byte leaves.
use tp_sistemas_operativos_c.Common.{
  ℕ, suc, ◌+◌, ◌-◌, ◌<◌, ◌≡◌, refl, ◌∙◌, String, true, false, some, if◌then◌else◌, ltb, arith, get,
  get-put, get-put_self, str_eq, string_eq, beq_refl,
}
use tp_sistemas_operativos_c.Memoria.Marcos.{Bitarray}
use tp_sistemas_operativos_c.Entradasalida.{Metadata, Fs, sigue, bloques_para, cantidad}
use tp_sistemas_operativos_c.Entradasalida.Bitmap.Tramos.{
  get_bit-some, get_bit-libre, limpiar_hasta-test,
}
use tp_sistemas_operativos_c.Entradasalida.Diccionario.{Diccionario, cargar_diccionario_nuevo}
use tp_sistemas_operativos_c.Entradasalida.Operaciones.{
  existe, crear_archivo, achicar, fijar_tam, truncar, truncate_archivo,
}
use tp_sistemas_operativos_c.Entradasalida.Disco.{tiene, IsDisco}
use tp_sistemas_operativos_c.Entradasalida.Disco.Bloques.{
  bloques_para-zero, cantidad-pos, cantidad_vacio,
}
use tp_sistemas_operativos_c.Entradasalida.Disco.Archivos.{extremo}
use tp_sistemas_operativos_c.Entradasalida.Reparto.Suma.{suma}
use tp_sistemas_operativos_c.Entradasalida.Compactacion.Bits.{hay_libre}
use tp_sistemas_operativos_c.Entradasalida.Compactacion.Compacto.{disco-suma}

module _ (a : Bitarray) (block_size block_count : ℕ) (nombre : String) (i : ℕ) (s s' : Fs a.B) where
  -- The file is new, empty, at the first free block, and the others are as they were.
  pub record IsCreado : Type 0 where
    pub en_disco : i < block_count
    pub libre : a.test_bit s.bitmap i ≡ false
    pub primero : (j : ℕ) → j < i → a.test_bit s.bitmap j ≡ true
    pub lookup :
        (m : String)
        → get m s'.diccionario ≡ (
            if str_eq nombre m
            then some (record { bloque_inicial = i; tam_archivo = 0 })
            else get m s.diccionario)
    pub listado : existe nombre s'.directorio ≡ true
    pub mismos_bytes : s'.bloques ≡ s.bloques

module _ (a : Bitarray) (block_size block_count : ℕ) (pos : 0 < block_size) (s : Fs a.B)
    (disco : IsDisco a block_size block_count s) (nombre : String) where
  -- For blocks of at least 1 byte, and on a disk on which the bitmap and the metadata agree, the
  -- creation of a file of a name that the directory does not have, with fewer blocks in use than
  -- there are, makes it empty at the first free block, leaves the metadata of the others and the
  -- bytes, and puts it in the directory.
  pub crear_archivo-IsCreado :
      suma block_size s.diccionario < block_count
      → existe nombre s.directorio ≡ false
      → (i : ℕ) × IsCreado a block_size block_count nombre i s
          (crear_archivo a block_size block_count nombre s)
  unfolding crear_archivo cargar_diccionario_nuevo existe
  crear_archivo-IsCreado h no_esta =
      let e = disco-suma a block_size block_count pos s disco in
      let (j, l, u, x) = hay_libre (a.test_bit s.bitmap) 0 block_count (omega (arith, e, h)) in
      let (i, g) = get_bit-libre a block_count s.bitmap j (omega (arith, u)) x in
      let (dentro, libre, primero) = get_bit-some a block_count s.bitmap i g in
      (
        i,
        rw (crear_archivo, g, no_esta)
            (record {
              en_disco = dentro;
              libre = libre;
              primero = primero;
              lookup = λ m. get-put nombre m _ s.diccionario;
              listado = rw (beq_refl nombre) refl;
              mismos_bytes = refl;
            }),
      )

  module _ (elementos : Diccionario → Diccionario) (memcpy : ℕ → ℕ → ℕ → (ℕ → ℕ) → ℕ → ℕ)
      (f : Metadata) (e : get nombre s.diccionario ≡ some f) where
    -- For blocks of at least 1 byte, and on a disk on which the bitmap and the metadata agree, a
    -- truncation of a file to 0 bytes returns with the first block of the file free, although the
    -- file still takes it, so the bitmap and the metadata do not agree.
    pub truncate_archivo_zero :
        (turnos : ℕ)
        → (s' : Fs a.B) × (truncate_archivo a block_size block_count elementos memcpy
              (suc turnos)
              nombre
              0
              s
            ≡ sigue s')
          × (a.test_bit s'.bitmap f.bloque_inicial ≡ false)
          × (tiene block_size s'.diccionario nombre f.bloque_inicial ≡ true)
          × (¬ IsDisco a block_size block_count s')
    unfolding truncate_archivo truncar achicar fijar_tam
    truncate_archivo_zero turnos =
        let z = bloques_para-zero block_size pos in
        let p = cantidad-pos block_size pos f in
        let cota = extremo a block_size block_count pos s disco nombre f e in
        let cabe = disco.cabe in
        let n = cantidad block_size f in
        let s' : Fs a.B =
          fijar_tam a block_size block_count nombre f 0
            (achicar a block_size block_count f 0 n s) in
        let x : ltb block_count (bloques_para block_size 0) ≡ false = ground arith in
        let y : ltb (bloques_para block_size 0) n ≡ true = ground arith in
        let q : n - bloques_para block_size 0 ≡ n = omega (arith, z) in
        let bit : a.test_bit s'.bitmap f.bloque_inicial ≡ false =
          limpiar_hasta-test a s.bitmap (f.bloque_inicial + n - 1) n f.bloque_inicial (omega arith)
            (omega arith)
          ∙ ground arith in
        let suyo : tiene block_size s'.diccionario nombre f.bloque_inicial ≡ true =
          rw (get-put_self nombre (record f { tam_archivo = 0 }) s.diccionario)
            (ground (arith, cantidad_vacio block_size pos (record f { tam_archivo = 0 }))) in
        (s', rw (x, e, y, q) refl, bit, suyo, λ d. cc (d.marcado nombre f.bloque_inicial suyo, bit))
