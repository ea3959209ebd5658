-- ===== src/Entradasalida.antt =====
-- entradasalida/src: the state of the file system. A set bit of the bitmap is a block in use. The
-- dictionary has for each file its metadata, which lie in the file's own page on the disk; the bytes
-- of the blocks are a function of the position.
pub mod Bitmap
pub mod Diccionario
pub mod Compactacion
pub mod Operaciones
pub mod Hilos
pub mod Disco
pub mod Reparto
pub mod Espacio
pub mod Truncado
pub mod Contenido
pub mod Creado
pub mod Reinicio
pub mod Tests
use tp_sistemas_operativos_c.Common.{ℕ, ◌+◌, ◌-◌, ◌/◌, ◌==◌, String, List, ◌∷◌, if◌then◌else◌}

pub record Metadata : Type 0 where
  pub bloque_inicial : ℕ
  pub tam_archivo : ℕ

-- `directorio` has the names of the files that lie in the directory of the file system, those that
-- are not in the dictionary included.
pub record Fs (B : Type 0) : Type 0 where
  pub bitmap : B
  pub diccionario : List (String × Metadata)
  pub directorio : List String
  pub bloques : ℕ → ℕ

-- How an operation ends: `sale`, the process exits; `indefinido`, the code reads outside its data;
-- `sin_turnos`, a loop has not ended after the turns that it was given.
pub data Salida (A : Type 0) : Type 0 where
  sigue : A → Salida A
  sale indefinido sin_turnos : Salida A

infixl 5 ◌>>=◌
abbrev pub ◌>>=◌ : {A B : Type 0} → Salida A → (A → Salida B) → Salida B
sigue a >>= f = f a
sale >>= f = sale
indefinido >>= f = indefinido
sin_turnos >>= f = sin_turnos

-- The blocks that hold `tam` bytes.
unfoldable pub bloques_para : ℕ → ℕ → ℕ
bloques_para block_size tam = (tam + block_size - 1) / block_size

-- The blocks that a file takes: one, if it is empty.
unfoldable pub cantidad : ℕ → Metadata → ℕ
unfolding bloques_para
cantidad block_size f = let n = bloques_para block_size f.tam_archivo in if n == 0 then 1 else n
