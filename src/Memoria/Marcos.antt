-- ===== src/Memoria/Marcos.antt =====
-- memoria/src/memoria-utils/memoria.c: the free frames. A set bit is a free frame. The bit array
-- is so-commons' `t_bitarray`: here its operations, and what they do to a bit of the array.
pub mod Busqueda
use tp_sistemas_operativos_c.Common.{
  ℕ, zero, suc, ◌+◌, ◌<◌, ◌==◌, ◌≡◌, Bool, true, false, Option, none, some, if◌then◌else◌,
}

pub record Bitarray : Type 1 where
  pub B : Type 0
  pub max_bit : B → ℕ
  pub test_bit : B → ℕ → Bool
  pub set_bit : B → ℕ → B
  pub clean_bit : B → ℕ → B
  pub max_bit-set_bit : (b : B) (i : ℕ) → max_bit (set_bit b i) ≡ max_bit b
  pub max_bit-clean_bit : (b : B) (i : ℕ) → max_bit (clean_bit b i) ≡ max_bit b
  pub test_bit-set_bit :
      (b : B) (i j : ℕ)
      → i < max_bit b
      → test_bit (set_bit b i) j ≡ (if i == j then true else test_bit b j)
  pub test_bit-clean_bit :
      (b : B) (i j : ℕ)
      → i < max_bit b
      → test_bit (clean_bit b i) j ≡ (if i == j then false else test_bit b j)

-- The loops from the bit `i` on, with `n` bits to go.
unfoldable pub contar_desde : (ℕ → Bool) → ℕ → ℕ → ℕ
contar_desde test i zero = 0
contar_desde test i (suc n) = (if test i then 1 else 0) + contar_desde test (suc i) n

unfoldable pub buscar_desde : (ℕ → Bool) → ℕ → ℕ → Option ℕ
buscar_desde test i zero = none
buscar_desde test i (suc n) = if test i then some i else buscar_desde test (suc i) n

unfoldable pub cantidad_marcos_libres : (a : Bitarray) → a.B → ℕ
unfolding contar_desde
cantidad_marcos_libres a b = contar_desde (a.test_bit b) 0 (a.max_bit b)

-- `none` is the -1.
unfoldable pub buscar_marco_libre : (a : Bitarray) → a.B → Option ℕ
unfolding buscar_desde
buscar_marco_libre a b = buscar_desde (a.test_bit b) 0 (a.max_bit b)
