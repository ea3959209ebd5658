-- ===== src/Entradasalida/Tests.antt =====
-- A disk of eight blocks of two bytes, with files that are made from the empty one.
use tp_sistemas_operativos_c.Common.{
  ℕ, ◌+◌, ◌-◌, ◌*◌, ◌<◌, ◌≡◌, refl, String, Bool, true, false, ◌&&◌, ◌==◌, [], ◌∷◌, Option, none,
  some, if◌then◌else◌, leb, ltb, arith, pos, get, put, remove, take, string_eq, str_eq,
}
use tp_sistemas_operativos_c.Memoria.Marcos.{Bitarray}
use tp_sistemas_operativos_c.Memoria.Bytes.{leer}
use tp_sistemas_operativos_c.Entradasalida.{
  Metadata, Fs, Salida, sigue, sale, bloques_para, cantidad,
}
use tp_sistemas_operativos_c.Entradasalida.Diccionario.{Diccionario}
use tp_sistemas_operativos_c.Entradasalida.Operaciones.{
  crear_archivo, delete_archivo, fijar_tam, truncate_archivo, escribir_archivo, leer_archivo,
}
use tp_sistemas_operativos_c.Entradasalida.Disco.{tiene, IsDisco}
use tp_sistemas_operativos_c.Entradasalida.Disco.Archivos.{
  crear_archivo-IsDisco, delete_archivo-IsDisco, fijar_tam-IsDisco,
}
use tp_sistemas_operativos_c.Entradasalida.Reparto.{IsListado}
use tp_sistemas_operativos_c.Entradasalida.Reparto.Suma.{suma}
use tp_sistemas_operativos_c.Entradasalida.Compactacion.{compactacion_bloques}
use tp_sistemas_operativos_c.Entradasalida.Compactacion.Contrato.{compactacion_bloques-IsCompacto}
use tp_sistemas_operativos_c.Entradasalida.Compactacion.Compacto.{IsCompacto}
use tp_sistemas_operativos_c.Entradasalida.Truncado.{
  IsTruncado, truncate_archivo-IsTruncado, truncate_archivo-sale,
}
use tp_sistemas_operativos_c.Entradasalida.Creado.{
  IsCreado, crear_archivo-IsCreado, truncate_archivo_zero,
}
use tp_sistemas_operativos_c.Entradasalida.Contenido.{
  byte_de, en_disco, escribir_archivo-aislada, delete_archivo-aislada, leer-escribir_archivo_otro,
}

abbrev pub ocho : Bitarray
ocho = record {
  B = ℕ → Bool;
  max_bit = λ b. 8;
  test_bit = λ b i. b i;
  set_bit = λ b i j. if i == j then true else b j;
  clean_bit = λ b i j. if i == j then false else b j;
  max_bit-set_bit = λ b i. refl;
  max_bit-clean_bit = λ b i. refl;
  test_bit-set_bit = λ b i j h. refl;
  test_bit-clean_bit = λ b i j h. refl;
}

abbrev pub Disco : Type 0
Disco = Fs (ℕ → Bool)

abbrev pub vacio : Disco
vacio = record {
  bitmap = λ i. false;
  diccionario = [];
  directorio = "bitmap.dat" ∷ [];
  bloques = λ i. 0;
}

abbrev en_orden : Diccionario → Diccionario
en_orden d = d

en_orden-IsListado : IsListado en_orden
en_orden-IsListado = record { lookup = λ d n u. refl; unicos = λ d u. u }

abbrev mover : ℕ → ℕ → ℕ → (ℕ → ℕ) → ℕ → ℕ
mover d src n f i = if leb d i && ltb i (d + n) then f (src + (i - d)) else f i

vacio-IsDisco : IsDisco ocho 2 8 vacio
unfolding get
vacio-IsDisco = record {
  cabe = omega arith;
  dentro = λ n i h. absurd (cc);
  marcado = λ n i h. absurd (cc);
  de_alguno = λ i h. absurd (cc);
  disjuntos = λ n m i h l. absurd (cc);
  unicos = tt;
  en_directorio = λ n h. absurd (cc);
}

abbrev pub con_a : Disco
con_a = crear_archivo ocho 2 8 "A" vacio

abbrev pub con_b : Disco
con_b = crear_archivo ocho 2 8 "B" con_a

abbrev pub con_c : Disco
con_c = crear_archivo ocho 2 8 "C" con_b

abbrev pub sin_a : Disco
sin_a = delete_archivo ocho 2 8 "A" con_c

-- B in the block 1, C in the block 2.
pub sin_a-IsDisco : IsDisco ocho 2 8 sin_a
sin_a-IsDisco =
    let a = crear_archivo-IsDisco ocho 2 8 (omega arith) vacio vacio-IsDisco "A" in
    let b = crear_archivo-IsDisco ocho 2 8 (omega arith) con_a a "B" in
    let c = crear_archivo-IsDisco ocho 2 8 (omega arith) con_b b "C" in
    delete_archivo-IsDisco ocho 2 8 (omega arith) con_c c "A"

diccionario_sin_a :
    sin_a.diccionario
    ≡ ("B", record { bloque_inicial = 1; tam_archivo = 0 })
      ∷ ("C", record { bloque_inicial = 2; tam_archivo = 0 })
      ∷ []
unfolding crear_archivo delete_archivo get put remove
diccionario_sin_a = refl

abbrev diccionario_de : Salida Disco → Option Diccionario
diccionario_de (sigue s) = some s.diccionario
diccionario_de r = none

-- B to five bytes: C goes to the block 0 and B behind it.
compacta :
    diccionario_de (truncate_archivo ocho 2 8 en_orden mover 2 "B" 5 sin_a)
    ≡ some (
        ("B", record { bloque_inicial = 1; tam_archivo = 5 })
        ∷ ("C", record { bloque_inicial = 0; tam_archivo = 0 })
        ∷ [])
unfolding crear_archivo delete_archivo truncate_archivo get put remove
compacta = refl

abbrev b_en_sin_a : Metadata
b_en_sin_a = record { bloque_inicial = 1; tam_archivo = 0 }

hay_b : get "B" sin_a.diccionario ≡ some b_en_sin_a
unfolding crear_archivo delete_archivo get put remove
hay_b = refl

dos_bloques : suma 2 sin_a.diccionario ≡ 2
unfolding crear_archivo delete_archivo get put remove cantidad
dos_bloques = refl

un_bloque : cantidad 2 b_en_sin_a ≡ 1
unfolding cantidad
un_bloque = refl

tres_bloques : bloques_para 2 5 ≡ 3
unfolding bloques_para
tres_bloques = refl

compactacion_bloques_example :
    (s' : Disco) × (compactacion_bloques ocho 2 8 en_orden mover "B" b_en_sin_a sin_a ≡ sigue s')
    × IsCompacto ocho 2 8 "B" b_en_sin_a sin_a s'
compactacion_bloques_example =
    compactacion_bloques-IsCompacto ocho 2 8 (omega arith) sin_a sin_a-IsDisco en_orden
      en_orden-IsListado mover "B" b_en_sin_a hay_b

truncate_archivo_example :
    (s' : Disco) × (truncate_archivo ocho 2 8 en_orden mover 2 "B" 5 sin_a ≡ sigue s')
    × IsTruncado ocho 2 8 "B" 5 sin_a s'
truncate_archivo_example =
    truncate_archivo-IsTruncado ocho 2 8 (omega arith) en_orden en_orden-IsListado mover "B" 5
      (omega arith) sin_a sin_a-IsDisco b_en_sin_a hay_b
      (omega (arith, dos_bloques, un_bloque, tres_bloques))

truncate_archivo-sale_example : truncate_archivo ocho 2 8 en_orden mover 2 "B" 16 sin_a ≡ sale
unfolding bloques_para
truncate_archivo-sale_example =
    truncate_archivo-sale ocho 2 8 (omega arith) en_orden en_orden-IsListado mover "B" 16
      (omega arith) sin_a sin_a-IsDisco b_en_sin_a hay_b (omega arith)
      (omega (arith, dos_bloques, un_bloque)) 1

truncate_archivo_zero_example :
    (s' : Disco) × (truncate_archivo ocho 2 8 en_orden mover 2 "B" 0 sin_a ≡ sigue s')
    × (ocho.test_bit s'.bitmap 1 ≡ false)
    × (tiene 2 s'.diccionario "B" 1 ≡ true)
    × (¬ IsDisco ocho 2 8 s')
truncate_archivo_zero_example =
    truncate_archivo_zero ocho 2 8 (omega arith) sin_a sin_a-IsDisco "B" en_orden mover b_en_sin_a
      hay_b 1

crear_archivo_example : (i : ℕ) × IsCreado ocho 2 8 "D" i sin_a (crear_archivo ocho 2 8 "D" sin_a)
unfolding crear_archivo delete_archivo get put
crear_archivo_example =
    crear_archivo-IsCreado ocho 2 8 (omega arith) sin_a sin_a-IsDisco "D"
      (omega (arith, dos_bloques)) refl

-- C with one byte.
abbrev con_byte : Disco
con_byte = fijar_tam ocho 2 8 "C" (record { bloque_inicial = 2; tam_archivo = 0 }) 1 sin_a

abbrev c_con_byte : Metadata
c_con_byte = record { bloque_inicial = 2; tam_archivo = 1 }

hay_c : get "C" con_byte.diccionario ≡ some c_con_byte
unfolding crear_archivo delete_archivo fijar_tam get put remove
hay_c = refl

con_byte-IsDisco : IsDisco ocho 2 8 con_byte
unfolding crear_archivo delete_archivo cantidad get put remove
con_byte-IsDisco =
    fijar_tam-IsDisco ocho 2 8 (omega arith) sin_a sin_a-IsDisco "C"
      (record { bloque_inicial = 2; tam_archivo = 0 }) refl 1 refl

escribir_archivo_example :
    (s' : Disco) × (escribir_archivo ocho 2 8 "C" (pos 0) (pos 1) (9 ∷ []) con_byte ≡ sigue s')
    × (leer (byte_de 2 c_con_byte 0) 1 s'.bloques ≡ take 1 (9 ∷ []))
    × ((m : String) (g : Metadata) (k : ℕ)
        → str_eq "C" m ≡ false
        → get m con_byte.diccionario ≡ some g
        → k < cantidad 2 g * 2
        → s'.bloques (byte_de 2 g k) ≡ con_byte.bloques (byte_de 2 g k))
escribir_archivo_example =
    escribir_archivo-aislada ocho 2 8 (omega arith) con_byte "C" c_con_byte hay_c 0 1 (9 ∷ [])
      (omega arith) (omega arith) con_byte-IsDisco

delete_archivo_example :
    ((k : ℕ)
      → k < cantidad 2 c_con_byte * 2
      → (delete_archivo ocho 2 8 "C" con_byte).bloques (byte_de 2 c_con_byte k) ≡ 0)
    × ((m : String) (g : Metadata) (k : ℕ)
        → str_eq "C" m ≡ false
        → get m con_byte.diccionario ≡ some g
        → k < cantidad 2 g * 2
        → (delete_archivo ocho 2 8 "C" con_byte).bloques (byte_de 2 g k)
          ≡ con_byte.bloques (byte_de 2 g k))
delete_archivo_example =
    delete_archivo-aislada ocho 2 8 (omega arith) con_byte "C" c_con_byte hay_c con_byte-IsDisco

leer_otro_example :
    (s' : Disco) × (escribir_archivo ocho 2 8 "C" (pos 0) (pos 1) (9 ∷ []) con_byte ≡ sigue s')
    × (leer_archivo ocho 2 8 "C" (pos 0) (pos 1) s'
        ≡ leer_archivo ocho 2 8 "C" (pos 0) (pos 1) con_byte)
leer_otro_example =
    leer-escribir_archivo_otro ocho 2 8 (omega arith) con_byte "C" c_con_byte hay_c 0 1 (9 ∷ [])
      (omega arith) (omega arith)
      (en_disco ocho 2 8 (omega arith) con_byte "C" c_con_byte hay_c con_byte-IsDisco) (omega arith)
