-- ===== src/Entradasalida/Disco.antt =====
-- entradasalida/src: when the bitmap and the metadata of the files agree.
pub mod Bloques
pub mod Cambio
pub mod Archivos
use tp_sistemas_operativos_c.Common.{
  ℕ, ◌≤◌, ◌<◌, ◌≡◌, ◌+◌, String, Bool, true, false, List, [], ◌∷◌, Option, none, some, get,
  string_eq,
}
use tp_sistemas_operativos_c.Memoria.Marcos.{Bitarray}
use tp_sistemas_operativos_c.Entradasalida.{Metadata, Fs, cantidad}
use tp_sistemas_operativos_c.Entradasalida.Bitmap.Tramos.{en_tramo}
use tp_sistemas_operativos_c.Entradasalida.Diccionario.{Diccionario}
use tp_sistemas_operativos_c.Entradasalida.Operaciones.{existe}

-- Whether a file has a block.
abbrev pub tiene_bloque : ℕ → Option Metadata → ℕ → Bool
tiene_bloque block_size none i = false
tiene_bloque block_size (some f) i = en_tramo f.bloque_inicial (cantidad block_size f) i

abbrev pub tiene : ℕ → Diccionario → String → ℕ → Bool
tiene block_size d nombre i = tiene_bloque block_size (get nombre d) i

-- No name has two entries.
abbrev pub Unicos : Diccionario → Type 0
Unicos [] = Unit
Unicos ((nombre, f) ∷ d) = (get nombre d ≡ none) × Unicos d

module _ (a : Bitarray) (block_size block_count : ℕ) where
  -- A bit is set if and only if some file has the block, one file at most has it, and it is on the
  -- disk; each file is in the directory.
  pub record IsDisco (s : Fs a.B) : Type 0 where
    pub cabe : block_count ≤ a.max_bit s.bitmap
    pub dentro : (n : String) (i : ℕ) → tiene block_size s.diccionario n i ≡ true → i < block_count
    pub marcado :
        (n : String) (i : ℕ)
        → tiene block_size s.diccionario n i ≡ true
        → a.test_bit s.bitmap i ≡ true
    pub de_alguno :
        (i : ℕ)
        → a.test_bit s.bitmap i ≡ true
        → (n : String) × (tiene block_size s.diccionario n i ≡ true)
    pub disjuntos :
        (n m : String) (i : ℕ)
        → tiene block_size s.diccionario n i ≡ true
        → tiene block_size s.diccionario m i ≡ true
        → n ≡ m
    pub unicos : Unicos s.diccionario
    pub en_directorio :
        (n : String) {f : Metadata} → get n s.diccionario ≡ some f → existe n s.directorio ≡ true
