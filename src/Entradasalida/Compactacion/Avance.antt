-- ===== src/Entradasalida/Compactacion/Avance.antt =====
-- bloques.c: how far the loop of the compaction has come.
use mathlib.Core.Path.{fun_ext, subst}
use tp_sistemas_operativos_c.Common.{
  ℕ, ◌+◌, ◌≤◌, ◌<◌, ◌≡◌, ◌⊎◌, refl, String, true, false, Option, none, some, ltb, arith, get,
  remove, str_eq, string_eq, Bool-cases, ltb→lt, inl, inr,
}
use tp_sistemas_operativos_c.Memoria.Marcos.{Bitarray, contar_desde}
use tp_sistemas_operativos_c.Entradasalida.{Metadata, Fs, cantidad}
use tp_sistemas_operativos_c.Entradasalida.Bitmap.{get_bit}
use tp_sistemas_operativos_c.Entradasalida.Bitmap.Tramos.{get_bit-libre}
use tp_sistemas_operativos_c.Entradasalida.Disco.{tiene, Unicos}
use tp_sistemas_operativos_c.Entradasalida.Disco.Bloques.{cantidad-pos}
use tp_sistemas_operativos_c.Entradasalida.Disco.Cambio.{Unicos-remove, get-remove}
use tp_sistemas_operativos_c.Entradasalida.Reparto.{ajeno, IsReparto}
use tp_sistemas_operativos_c.Entradasalida.Reparto.Suma.{suma, suma-remove, suma-contar}
use tp_sistemas_operativos_c.Entradasalida.Compactacion.Archivos.{desplazado}
use tp_sistemas_operativos_c.Entradasalida.Compactacion.Bits.{hay_libre}

abbrev pub tam_de : Option Metadata → Option ℕ
tam_de none = none
tam_de (some f) = some f.tam_archivo

pub tam_de-desplazado :
    (hueco c n : ℕ) (o : Option Metadata) → tam_de (desplazado hueco c n o) ≡ tam_de o
tam_de-desplazado hueco c n none = refl
tam_de-desplazado hueco c n (some f) = ground arith

module _ (a : Bitarray) (block_size block_count : ℕ) (nombre : String) (f : Metadata)
    (s₀ : Fs a.B) where
  -- The files other than `nombre` agree with the bitmap, the set bits before `e` come first, and the
  -- sizes and the names are as at the start.
  pub record IsAvance (e : ℕ) (s : Fs a.B) : Type 0 where
    pub cabe : block_count ≤ a.max_bit s.bitmap
    pub reparto :
        IsReparto block_count (ajeno block_size nombre s.diccionario) (a.test_bit s.bitmap)
    pub unicos : Unicos s.diccionario
    pub propio : get nombre s.diccionario ≡ some f
    pub total : suma block_size s.diccionario ≡ suma block_size s₀.diccionario
    pub tamanios : (m : String) → tam_de (get m s.diccionario) ≡ tam_de (get m s₀.diccionario)
    pub mismo_directorio : s.directorio ≡ s₀.directorio
    pub prefijo :
        (i j : ℕ) → i < e → j < i → a.test_bit s.bitmap i ≡ true → a.test_bit s.bitmap j ≡ true
    pub apartado : (f.bloque_inicial < e) ⊎ (a.test_bit s.bitmap f.bloque_inicial ≡ false)

  module _ (e : ℕ) (s : Fs a.B) (v : IsAvance e s) where
    pub fuera : (i : ℕ) → block_count ≤ i → a.test_bit s.bitmap i ≡ false
    fuera i h = elim (Bool-cases (a.test_bit s.bitmap i)) [
      | inr x ↦ x
      | inl x ↦
          let (m, y) = v.reparto.de_alguno i x in absurd (omega (arith, v.reparto.dentro m i y))
    ]

    pub hasta_el_fin : block_count ≤ e → IsAvance block_count s
    hasta_el_fin h = record {
      cabe = v.cabe;
      reparto = v.reparto;
      unicos = v.unicos;
      propio = v.propio;
      total = v.total;
      tamanios = v.tamanios;
      mismo_directorio = v.mismo_directorio;
      prefijo = λ i j l. v.prefijo i j (omega arith);
      apartado = elim (Bool-cases (ltb f.bloque_inicial block_count)) [
        | inl y ↦ inl (ltb→lt f.bloque_inicial block_count y)
        | inr y ↦ inr (fuera f.bloque_inicial (ground arith))
      ];
    }

module _ (a : Bitarray) (block_size block_count : ℕ) (pos : 0 < block_size) (nombre : String)
    (f : Metadata) (s₀ : Fs a.B) where
  -- The files take the set bits, and `nombre` its own blocks.
  pub avance-contar :
      (e : ℕ) (s : Fs a.B)
      → IsAvance a block_size block_count nombre f s₀ e s
      → contar_desde (a.test_bit s.bitmap) 0 block_count + cantidad block_size f
        ≡ suma block_size s₀.diccionario
  avance-contar e s v =
      let d = remove nombre s.diccionario in
      let igual : ajeno block_size nombre s.diccionario ≡ tiene block_size d = fun_ext λ m.
        fun_ext λ i. elim (Bool-cases (str_eq nombre m)) [
          | inl x ↦ rw (x, get-remove nombre m s.diccionario v.unicos, x) refl
          | inr x ↦ rw (x, get-remove nombre m s.diccionario v.unicos, x) refl
        ] in
      let r = subst (λ t. IsReparto block_count t (a.test_bit s.bitmap)) igual v.reparto in
      let x =
        suma-contar block_size block_count d (a.test_bit s.bitmap)
          (Unicos-remove nombre s.diccionario v.unicos) (cantidad-pos block_size pos) r in
      let y = suma-remove block_size nombre f s.diccionario v.propio in
      let z = v.total in omega (arith, x, y, z)

  module _ (sobra : suma block_size s₀.diccionario ≤ block_count) (e : ℕ) (s : Fs a.B)
      (v : IsAvance a block_size block_count nombre f s₀ e s) where
    pub avance-libre : (i : ℕ) × (get_bit a block_count s.bitmap ≡ some i)
    avance-libre =
        let p = cantidad-pos block_size pos f in
        let x = avance-contar e s v in
        let (i, l, u, libre) =
          hay_libre (a.test_bit s.bitmap) 0 block_count (omega (arith, x, p, sobra)) in
        get_bit-libre a block_count s.bitmap i (omega (arith, u)) libre
