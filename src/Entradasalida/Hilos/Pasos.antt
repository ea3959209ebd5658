-- ===== src/Entradasalida/Hilos/Pasos.antt =====
-- hilos.c: a run of the thread of a file system.
use tp_sistemas_operativos_c.Common.{ℕ, suc, ◌≤◌, ◌<◌, ◌≡◌, List, [], ◌∷◌, length, string_eq, pos}
use tp_sistemas_operativos_c.Memoria.Marcos.{Bitarray}
use tp_sistemas_operativos_c.Entradasalida.{Fs, Salida, sigue, sale, indefinido, sin_turnos}
use tp_sistemas_operativos_c.Entradasalida.Diccionario.{Diccionario}
use tp_sistemas_operativos_c.Entradasalida.Hilos.{
  Envio, solicitar_dato_memoria, escribir_memoria, termine_operacion, imprimir, Pedido, fs_create,
  fs_delete, fs_truncate, fs_write, fs_read, no_definida,
}
use tp_sistemas_operativos_c.Entradasalida.Disco.{IsDisco}
use tp_sistemas_operativos_c.Entradasalida.Reparto.{IsListado}

-- A truncation leaves some byte, the positions and the sizes are not negative, and the memory answers
-- as many bytes as were asked for.
abbrev pub IsPedido : Pedido → Type 0
IsPedido (fs_create nombre pid) = Unit
IsPedido (fs_delete nombre pid) = Unit
IsPedido (fs_truncate nombre tam pid) = 0 < tam
IsPedido (fs_write nombre (pos tam) (pos puntero) dir pid dato) = tam ≤ length dato
IsPedido (fs_write nombre _ _ dir pid dato) = ⊥
IsPedido (fs_read nombre (pos tam) (pos puntero) dir pid) = Unit
IsPedido (fs_read nombre _ _ dir pid) = ⊥
IsPedido no_definida = Unit

abbrev pub SonPedidos : List Pedido → Type 0
SonPedidos [] = Unit
SonPedidos (p ∷ ps) = IsPedido p × SonPedidos ps

-- How many ends of operations were sent.
abbrev pub terminadas : List Envio → ℕ
terminadas [] = 0
terminadas (termine_operacion ∷ es) = suc (terminadas es)
terminadas (solicitar_dato_memoria dir tam pid ∷ es) = terminadas es
terminadas (escribir_memoria dir dato pid ∷ es) = terminadas es
terminadas (imprimir texto ∷ es) = terminadas es

module _ (a : Bitarray) (block_size block_count : ℕ) where
  -- It goes on with the bitmap and the metadata in agreement after `n` ends of operations, or exits.
  abbrev pub TrasPedidos : ℕ → Salida (Fs a.B × List Envio) → Type 0
  TrasPedidos n (sigue (s, es)) = IsDisco a block_size block_count s × (terminadas es ≡ n)
  TrasPedidos n sale = Unit
  TrasPedidos n indefinido = ⊥
  TrasPedidos n sin_turnos = ⊥

module _ (a : Bitarray) (block_size block_count : ℕ) (positivo : 0 < block_size)
    (elementos : Diccionario → Diccionario) (listado : IsListado elementos)
    (memcpy : ℕ → ℕ → ℕ → (ℕ → ℕ) → ℕ → ℕ) where
  module _ (s : Fs a.B) (disco : IsDisco a block_size block_count s) where
    abbrev TrasTruncar : Salida (Fs a.B) → Type 0
    TrasTruncar (sigue s') = IsDisco a block_size block_count s'
    TrasTruncar sale = Unit
    TrasTruncar indefinido = ⊥
    TrasTruncar sin_turnos = ⊥
