-- ===== src/Utils/Paquetes.antt =====
-- utils/src/utils/client.c, server.c and envios.c: the packets, how they are sent and how they are
-- read. A block is the list of its bytes. `send`, `recv` and `close` are parameters over a channel,
-- one direction of a connection: `send` gives its result, `recv` its result and the bytes that it
-- wrote. A function gives none where the program exits or goes past a block.
pub mod Formato
pub mod Conexion
pub mod Cola
pub mod Valores
mod Tests
use tp_sistemas_operativos_c.Common.{
  ℕ, zero, suc, ◌+◌, ◌%◌, ◌^◌, Bool, List, [], ◌∷◌, ◌++◌, Option, none, some, length, leb, eqb_ℤ,
  ltb_ℤ, if◌then◌else◌, ℤ, pos, negsuc, to_unsigned, to_signed,
}
use tp_sistemas_operativos_c.Utils.Serializacion.{
  ◌>>=◌, bytes_int, leer_int, bytes_cadena, leer_tantos,
}

pub record Sockets : Type 1 where
  pub Canal : Type 0
  pub send : List ℕ → Canal → ℤ × Canal
  pub recv : ℕ → Canal → ℤ × List ℕ × Canal
  pub close : Canal → Canal

pub record PaqueteEntre : Type 0 where
  pub operacion : ℤ
  pub size_payload : ℤ
  pub payload : List ℕ

pub record Buffer : Type 0 where
  pub size : ℤ
  pub stream : List ℕ

pub record Paquete : Type 0 where
  pub codigo_operacion : ℤ
  pub buffer : Buffer

-- The codes of `op_code`.
abbrev pub mensaje : ℤ
mensaje = pos 0

abbrev pub paquete : ℤ
paquete = pos 1

-- A sum kept in an `int`.
unfoldable pub suma_int : ℤ → ℤ → ℤ
suma_int a b = to_signed (2 ^ 31) ((to_unsigned (2 ^ 32) a + to_unsigned (2 ^ 32) b) % 2 ^ 32)

-- What is written to a new block, from its start.
unfoldable pub en_bloque : ℤ → List ℕ → Option (List ℕ)
en_bloque (pos n) bs = if leb (length bs) n then some bs else none
en_bloque (negsuc n) bs = none

unfoldable pub serializar_paquete : Paquete → ℤ → Option (List ℕ)
serializar_paquete p bytes = do
  c ← leer_tantos p.buffer.size p.buffer.stream
  en_bloque bytes (bytes_int p.codigo_operacion ++ (bytes_int p.buffer.size ++ c.0))

-- The bytes and how many they are.
unfoldable pub serializar_paquete_entre : PaqueteEntre → Option (List ℕ × ℤ)
serializar_paquete_entre e = do
  let bytes = suma_int (pos 8) e.size_payload
  c ← leer_tantos e.size_payload e.payload
  b ← en_bloque bytes (bytes_int e.operacion ++ (bytes_int e.size_payload ++ c.0))
  some (b, bytes)

unfoldable pub crear_buffer : Buffer
crear_buffer = record { size = pos 0; stream = [] }

unfoldable pub crear_paquete : Paquete
crear_paquete = record { codigo_operacion = paquete; buffer = crear_buffer }

unfoldable pub agregar_paquete_entre_a_paquete : Paquete → PaqueteEntre → Option Paquete
agregar_paquete_entre_a_paquete p e = do
  s ← serializar_paquete_entre e
  let new_size = suma_int (suma_int p.buffer.size s.1) (pos 4)
  viejo ← leer_tantos p.buffer.size p.buffer.stream
  nuevo ← leer_tantos s.1 s.0
  stream ← en_bloque new_size (viejo.0 ++ (bytes_int s.1 ++ nuevo.0))
  some (record p { buffer = record { size = new_size; stream = stream } })

unfoldable pub agregar_a_paquete : Paquete → List ℕ → ℤ → Option Paquete
agregar_a_paquete p valor tamanio = do
  let new_size = suma_int (suma_int p.buffer.size tamanio) (pos 4)
  viejo ← leer_tantos p.buffer.size p.buffer.stream
  nuevo ← leer_tantos tamanio valor
  stream ← en_bloque new_size (viejo.0 ++ (bytes_int tamanio ++ nuevo.0))
  some (record p { buffer = record { size = new_size; stream = stream } })

-- A negative result of `send` is `exit`.
unfoldable pub salvo_error : {A : Type 0} → ℤ × A → Option A
salvo_error (pos n, c) = some c
salvo_error (negsuc n, c) = none

module _ (k : Sockets) where
  unfoldable pub enviar_paquete : Paquete → k.Canal → Option k.Canal
  enviar_paquete p c = do
    let bytes = suma_int p.buffer.size (pos 8)
    a_enviar ← serializar_paquete p bytes
    b ← leer_tantos bytes a_enviar
    salvo_error (k.send b.0 c)

  -- The text is its bytes before the null one.
  unfoldable pub enviar_mensaje : List ℕ → k.Canal → Option k.Canal
  enviar_mensaje texto c =
      let tamanio = suma_int (pos (length texto)) (pos 1) in
      enviar_paquete
        (record {
          codigo_operacion = mensaje;
          buffer = record { size = tamanio; stream = bytes_cadena texto };
        })
        c

  unfoldable pub enviar_paquete_entre : ℤ → List ℕ → ℤ → k.Canal → Option k.Canal
  enviar_paquete_entre operacion payload size_payload c = do
    p ←
        agregar_paquete_entre_a_paquete crear_paquete
          (record { operacion = operacion; size_payload = size_payload; payload = payload })
    enviar_paquete p c

  -- What `recibir_operacion` does with the result of `recv`.
  unfoldable pub operacion_recibida : ℤ → List ℕ → k.Canal → Option (ℤ × k.Canal)
  operacion_recibida (pos (suc n)) bs c = do cod_op ← leer_int bs; some (cod_op.0, c)
  operacion_recibida _ bs c = some (negsuc 0, k.close c)

  unfoldable pub recibir_operacion : k.Canal → Option (ℤ × k.Canal)
  recibir_operacion c = let r = k.recv 4 c in operacion_recibida r.0 r.1 r.2

  -- `recv` of as many bytes as an `int` says.
  unfoldable pub recibir_tantos : ℤ → k.Canal → Option (List ℕ × k.Canal)
  recibir_tantos (pos n) c = let r = k.recv n c in some (r.1, r.2)
  recibir_tantos (negsuc n) c = none

  -- The size, the buffer and the channel.
  unfoldable pub recibir_buffer : k.Canal → Option (ℤ × List ℕ × k.Canal)
  recibir_buffer c = do
    let r = k.recv 4 c
    size ← leer_int r.1
    b ← recibir_tantos size.0 r.2
    some (size.0, b.0, b.1)

  unfoldable pub recibir_mensaje : k.Canal → Option k.Canal
  recibir_mensaje c = do b ← recibir_buffer c; some b.2

unfoldable pub deserializar_paquete_entre : List ℕ → Option PaqueteEntre
deserializar_paquete_entre bs = do
  op ← leer_int bs
  s ← leer_int op.1
  p ← leer_tantos s.0 s.1
  some (record { operacion = op.0; size_payload = s.0; payload = p.0 })

-- The loop of `recibir_paquete`: `bs` is the buffer from `desplazamiento` on. The fuel counts its
-- turns.
unfoldable pub leer_valores : ℕ → ℤ → ℕ → List ℕ → Option (List (List ℕ))
leer_valores zero size desplazamiento bs = none
leer_valores (suc n) size desplazamiento bs =
    if ltb_ℤ (pos desplazamiento) size
    then (do
      t ← leer_int bs
      v ← leer_tantos t.0 t.1
      vs ← leer_valores n size (desplazamiento + 4 + length v.0) v.1
      some (v.0 ∷ vs))
    else some []

module _ (k : Sockets) where
  -- Each turn of the loop takes 4 bytes of the buffer at least.
  unfoldable pub recibir_paquete : k.Canal → Option (List (List ℕ) × k.Canal)
  recibir_paquete c = do
    b ← recibir_buffer k c
    vs ← leer_valores (suc (length b.1)) b.0 0 b.1
    some (vs, b.2)

  -- What follows the code of an operation.
  unfoldable pub recibir_cuerpo : k.Canal → Option (PaqueteEntre × k.Canal)
  recibir_cuerpo c = do
    b ← recibir_buffer k c
    t ← leer_int b.1
    p ← deserializar_paquete_entre t.1
    some (p, b.2)

  -- What follows the operation; `none` within is the null pointer.
  unfoldable pub segun_operacion : ℤ × k.Canal → Option (Option PaqueteEntre × k.Canal)
  segun_operacion op =
      if eqb_ℤ op.0 (negsuc 0)
      then some (none, op.1)
      else (recibir_cuerpo op.1 >>= (λ p. some (some p.0, p.1)))

  unfoldable pub recibir_paquete_entre : k.Canal → Option (Option PaqueteEntre × k.Canal)
  recibir_paquete_entre c = recibir_operacion k c >>= segun_operacion
