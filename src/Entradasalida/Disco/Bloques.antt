-- ===== src/Entradasalida/Disco/Bloques.antt =====
-- entradasalida/src: how many blocks a file takes.
use tp_sistemas_operativos_c.Common.{ℕ, ◌*◌, ◌≤◌, ◌<◌, ◌≡◌, refl, arith}
use tp_sistemas_operativos_c.Entradasalida.{Metadata, bloques_para, cantidad}

module _ (block_size : ℕ) (pos : 0 < block_size) where
  pub bloques_para-zero : bloques_para block_size 0 ≡ 0
  unfolding bloques_para
  bloques_para-zero = grind arith

  bloques_para-pos : (tam : ℕ) → 0 < tam → 0 < bloques_para block_size tam
  unfolding bloques_para
  bloques_para-pos tam h = grind arith

  -- The blocks hold the bytes.
  bloques_para-cabe : (tam : ℕ) → tam ≤ bloques_para block_size tam * block_size
  unfolding bloques_para
  bloques_para-cabe tam = grind arith

  pub cantidad-pos : (f : Metadata) → 0 < cantidad block_size f
  unfolding cantidad
  cantidad-pos f = ground arith

  pub cantidad_vacio : (f : Metadata) → f.tam_archivo ≡ 0 → cantidad block_size f ≡ 1
  unfolding cantidad
  cantidad_vacio f h = rw (h, bloques_para-zero) refl

  pub cantidad_lleno :
      (f : Metadata)
      → 0 < f.tam_archivo
      → cantidad block_size f ≡ bloques_para block_size f.tam_archivo
  unfolding cantidad
  cantidad_lleno f h = ground (arith, bloques_para-pos f.tam_archivo h)

  pub cantidad-cabe : (f : Metadata) → f.tam_archivo ≤ cantidad block_size f * block_size
  unfolding cantidad
  cantidad-cabe f = ground (arith, bloques_para-cabe f.tam_archivo)

pub cantidad_mover :
    (block_size b : ℕ) (f : Metadata)
    → cantidad block_size (record f { bloque_inicial = b }) ≡ cantidad block_size f
unfolding cantidad
cantidad_mover block_size b f = refl
