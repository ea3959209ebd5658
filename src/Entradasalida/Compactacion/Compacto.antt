-- ===== src/Entradasalida/Compactacion/Compacto.antt =====
-- bloques.c: the disk that a compaction leaves, and how many blocks the files take together.
use tp_sistemas_operativos_c.Common.{
  ℕ, ◌-◌, ◌≤◌, ◌<◌, ◌≡◌, String, some, ltb, arith, get, string_eq,
}
use tp_sistemas_operativos_c.Memoria.Marcos.{Bitarray, contar_desde}
use tp_sistemas_operativos_c.Entradasalida.{Metadata, Fs, cantidad}
use tp_sistemas_operativos_c.Entradasalida.Disco.{IsDisco}
use tp_sistemas_operativos_c.Entradasalida.Disco.Bloques.{cantidad-pos}
use tp_sistemas_operativos_c.Entradasalida.Reparto.Suma.{suma, suma-contar}
use tp_sistemas_operativos_c.Entradasalida.Compactacion.Avance.{tam_de}
use tp_sistemas_operativos_c.Entradasalida.Compactacion.Bits.{contar-le}

-- What a compaction leaves: the files, of the sizes that they had, take the first blocks of the
-- disk and no other, `nombre` the last ones of them.
module _ (a : Bitarray) (block_size block_count : ℕ) (nombre : String) (f : Metadata)
    (s s' : Fs a.B) where
  pub record IsCompacto : Type 0 where
    pub disco_tras : IsDisco a block_size block_count s'
    pub bits : (i : ℕ) → a.test_bit s'.bitmap i ≡ ltb i (suma block_size s.diccionario)
    pub ultimo :
        get nombre s'.diccionario
        ≡ some (record f { bloque_inicial = suma block_size s.diccionario - cantidad block_size f })
    pub tamanios : (m : String) → tam_de (get m s'.diccionario) ≡ tam_de (get m s.diccionario)
    pub mismo_directorio : s'.directorio ≡ s.directorio

module _ (a : Bitarray) (block_size block_count : ℕ) (pos : 0 < block_size) (s : Fs a.B)
    (disco : IsDisco a block_size block_count s) where
  -- The files of the disk take as many blocks as there are set bits.
  pub disco-suma : suma block_size s.diccionario ≡ contar_desde (a.test_bit s.bitmap) 0 block_count
  disco-suma =
      suma-contar block_size block_count s.diccionario (a.test_bit s.bitmap) disco.unicos
        (cantidad-pos block_size pos)
        (record {
          dentro = disco.dentro;
          marcado = disco.marcado;
          de_alguno = disco.de_alguno;
          disjuntos = disco.disjuntos;
        })

  pub disco-sobra : suma block_size s.diccionario ≤ block_count
  disco-sobra =
      let e = disco-suma in omega (arith, e, contar-le (a.test_bit s.bitmap) 0 block_count)
