-- ===== src/Entradasalida/Hilos.antt =====
-- entradasalida/src/hilos.c: what each kind of interface does for a packet of the kernel, and what it
-- sends. The payloads are as they were read; the delays and the logs are not in the model.
pub mod Pasos
use tp_sistemas_operativos_c.Common.{
  ℕ, suc, ◌+◌, ◌==◌, String, List, [], ◌∷◌, ◌++◌, length, take, replicate, if◌then◌else◌, ltb, ℤ,
  pos,
}
use tp_sistemas_operativos_c.Memoria.Marcos.{Bitarray}
use tp_sistemas_operativos_c.Entradasalida.{Fs, Salida, sigue, sale, indefinido, sin_turnos, ◌>>=◌}
use tp_sistemas_operativos_c.Entradasalida.Diccionario.{Diccionario}
use tp_sistemas_operativos_c.Entradasalida.Operaciones.{
  crear_archivo, delete_archivo, truncate_archivo, escribir_archivo, leer_archivo,
}

-- To the memory a question for bytes (address, size, PID) or bytes to write (address, bytes, PID),
-- to the kernel the end of the operation, and to the screen a text.
pub data Envio : Type 0 where
  solicitar_dato_memoria : ℤ → ℤ → ℕ → Envio
  escribir_memoria : ℤ → List ℕ → ℕ → Envio
  termine_operacion : Envio
  imprimir : List ℕ → Envio

-- The packets of the kernel. That of a write comes with the answer of the memory, whose bytes are
-- its last argument. A truncation to a negative size is not among them.
pub data Pedido : Type 0 where
  fs_create fs_delete : String → ℕ → Pedido
  fs_truncate : String → ℕ → ℕ → Pedido
  fs_write : String → ℤ → ℤ → ℤ → ℕ → List ℕ → Pedido
  fs_read : String → ℤ → ℤ → ℤ → ℕ → Pedido
  no_definida : Pedido

module _ (a : Bitarray) (block_size block_count : ℕ) (elementos : Diccionario → Diccionario)
    (memcpy : ℕ → ℕ → ℕ → (ℕ → ℕ) → ℕ → ℕ) where
  -- The switch of hilo_dialfs: the new state and what is sent to the memory. A truncation is
  -- allowed to call itself once.
  unfoldable pub atender_dialfs : Pedido → Fs a.B → Salida (Fs a.B × List Envio)
  unfolding crear_archivo delete_archivo truncate_archivo escribir_archivo leer_archivo
  atender_dialfs (fs_create nombre pid) s =
      sigue (crear_archivo a block_size block_count nombre s, [])
  atender_dialfs (fs_delete nombre pid) s =
      sigue (delete_archivo a block_size block_count nombre s, [])
  atender_dialfs (fs_truncate nombre tam pid) s =
      truncate_archivo a block_size block_count elementos memcpy 2 nombre tam s >>= λ s'.
      sigue (s', [])
  atender_dialfs (fs_write nombre tam puntero dir pid dato) s =
      escribir_archivo a block_size block_count nombre puntero tam dato s >>= λ s'.
      sigue (s', solicitar_dato_memoria dir tam pid ∷ [])
  atender_dialfs (fs_read nombre tam puntero dir pid) s =
      leer_archivo a block_size block_count nombre puntero tam s >>= λ dato.
      sigue (s, escribir_memoria dir dato pid ∷ [])
  atender_dialfs no_definida s = sigue (s, [])

  -- One turn of its loop.
  unfoldable pub hilo_dialfs : Pedido → Fs a.B → Salida (Fs a.B × List Envio)
  unfolding atender_dialfs
  hilo_dialfs p s = atender_dialfs p s >>= λ r. sigue (r.0, r.1 ++ (termine_operacion ∷ []))

  unfoldable pub atender_pedidos : List Pedido → Fs a.B → Salida (Fs a.B × List Envio)
  unfolding hilo_dialfs
  atender_pedidos [] s = sigue (s, [])
  atender_pedidos (p ∷ ps) s =
      hilo_dialfs p s >>= λ r. atender_pedidos ps r.0 >>= λ q. sigue (q.0, r.1 ++ q.1)

-- The other kinds, for the packet that they know.
unfoldable pub hilo_generica : List Envio
hilo_generica = termine_operacion ∷ []

-- `strncpy` of `n` bytes from a text, whose bytes are given without the 0 at its end.
unfoldable pub strncpy : ℕ → List ℕ → List ℕ
strncpy n texto = take n (texto ++ replicate n 0)

unfoldable pub hilo_stdin : ℕ → ℤ → ℕ → List ℕ → List Envio
unfolding strncpy
hilo_stdin tam dir pid texto =
    escribir_memoria dir (strncpy (suc tam) texto) pid ∷ termine_operacion ∷ []

-- The bytes of a text up to its 0.
unfoldable pub hasta_cero : List ℕ → List ℕ
hasta_cero [] = []
hasta_cero (b ∷ bs) = if b == 0 then [] else b ∷ hasta_cero bs

-- The answer of the memory is the last argument: one shorter than asked for is read past its end.
unfoldable pub hilo_stdout : ℕ → ℤ → ℕ → List ℕ → Salida (List Envio)
unfolding hasta_cero
hilo_stdout tam dir pid dato =
    if ltb (length dato) tam
    then indefinido
    else sigue (
        solicitar_dato_memoria dir (pos tam) pid
        ∷ imprimir (hasta_cero (take tam dato))
        ∷ termine_operacion
        ∷ [])
