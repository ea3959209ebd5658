-- ===== src/Entradasalida/Bitmap.antt =====
-- entradasalida/src/bitmap.c: the bitmap of the blocks, over so-commons' bit array.
pub mod Tramos
use tp_sistemas_operativos_c.Common.{
  ℕ, zero, suc, ◌+◌, ◌-◌, Bool, true, false, not, Option, if◌then◌else◌, leb,
}
use tp_sistemas_operativos_c.Memoria.Marcos.{Bitarray, buscar_desde}

module _ (a : Bitarray) where
  -- `cleanBitMap` for `n` blocks from `i` on, and for `n` blocks from `i` downwards.
  unfoldable pub limpiar_desde : a.B → ℕ → ℕ → a.B
  limpiar_desde b i zero = b
  limpiar_desde b i (suc n) = limpiar_desde (a.clean_bit b i) (suc i) n

  unfoldable pub limpiar_hasta : a.B → ℕ → ℕ → a.B
  limpiar_hasta b i zero = b
  limpiar_hasta b i (suc n) = limpiar_hasta (a.clean_bit b i) (i - 1) n

  unfoldable pub marcar_desde : a.B → ℕ → ℕ → a.B
  marcar_desde b i zero = b
  marcar_desde b i (suc n) = marcar_desde (a.set_bit b i) (suc i) n

  unfoldable pub todos_libres : a.B → ℕ → ℕ → Bool
  todos_libres b i zero = true
  todos_libres b i (suc n) = if a.test_bit b i then false else todos_libres b (suc i) n

  module _ (block_count : ℕ) where
    -- `none` is the -1.
    unfoldable pub get_bit : a.B → Option ℕ
    unfolding buscar_desde
    get_bit b = buscar_desde (λ i. not (a.test_bit b i)) 0 block_count

    unfoldable pub verificar_bitmap : a.B → ℕ → ℕ → Bool
    unfolding todos_libres
    verificar_bitmap b bloque cant =
        if leb block_count (bloque + cant) then false else todos_libres b (suc bloque) cant

    unfoldable pub clean_all : a.B → a.B
    unfolding limpiar_desde
    clean_all b = limpiar_desde b 0 block_count

    -- The array of crear_bitarray, from the one that so-commons makes.
    unfoldable pub crear_bitarray : a.B → a.B
    unfolding limpiar_desde
    crear_bitarray b = limpiar_desde b 0 block_count

    -- The number of blocks to mark may be negative; then none is.
    unfoldable pub compactacion_bitmap : a.B → ℕ → ℕ → a.B
    unfolding clean_all marcar_desde
    compactacion_bitmap b espacio cant_bloques_arch =
        marcar_desde (clean_all b) 0 (block_count + cant_bloques_arch - espacio)
