-- ===== src/Utils/Serializacion/Memoria/Vuelta.antt =====
-- serializacion.c: the payloads with no process control block, most of them with the memory.
use tp_sistemas_operativos_c.Common.{
  ◌+◌, ◌^◌, ◌<◌, ◌≡◌, ◌++◌, some, length, length-append, pos, arith,
}
use tp_sistemas_operativos_c.Utils.Serializacion.{bytes_int, bytes_cadena}
use tp_sistemas_operativos_c.Utils.Serializacion.Primitivas.{
  IsInt, IsCadena, leer_int-bytes_int, leer_int-final, leer_cadena-bytes_cadena, leer_cadena-final,
  leer_con_tamano-final, leer_tantos-final, length-bytes_int, length-bytes_cadena,
  length-bytes_con_tamano,
}
use tp_sistemas_operativos_c.Utils.Serializacion.Memoria.{
  ResizeMemoria, serializar_resize_memoria, deserializar_resize_memoria, ResultadoResizeMemoria,
  serializar_resultado_resize_memoria, deserializar_resultado_resize_memoria, EscribirMemoria,
  serializar_escribir_memoria, deserializar_escribir_memoria, LeerMemoria, serializar_leer_memoria,
  deserializar_leer_memoria, EnviarDatoMemoria, serializar_enviar_dato_memoria,
  deserializar_enviar_dato_memoria, SolicitarDatoMemoria, serializar_solicitar_dato_memoria,
  deserializar_solicitar_dato_memoria, GetInstruccion, serializar_get_instruccion,
  deserializar_get_instruccion, RecibirStringIoStdin, serializar_recibir_string_io_stdin,
  deserializar_recibir_string_io_stdin, CrearProceso, serializar_crear_proceso,
  deserializar_crear_proceso, InterfazCreada, serializar_interfaz_creada,
  deserializar_interfaz_creada,
}

pub deserializar-resize_memoria :
    (p : ResizeMemoria)
    → IsInt p.pid
    → IsInt p.tam
    → (deserializar_resize_memoria (serializar_resize_memoria p).0 ≡ some p)
      × (length (serializar_resize_memoria p).0 ≡ (serializar_resize_memoria p).1)
unfolding serializar_resize_memoria deserializar_resize_memoria
deserializar-resize_memoria p h0 h1 = (
  rw (
    deserializar_resize_memoria,
    leer_int-bytes_int p.pid (bytes_int p.tam) h0,
    leer_int-final p.tam h1,
  ),
  omega (
    arith,
    length-bytes_int p.pid,
    length-append (bytes_int p.pid) (bytes_int p.tam),
    length-bytes_int p.tam,
  ),
)

pub deserializar-resultado_resize_memoria :
    (p : ResultadoResizeMemoria)
    → IsInt p.resultado
    → (deserializar_resultado_resize_memoria (serializar_resultado_resize_memoria p).0 ≡ some p)
      × (length (serializar_resultado_resize_memoria p).0
          ≡ (serializar_resultado_resize_memoria p).1)
unfolding serializar_resultado_resize_memoria deserializar_resultado_resize_memoria
deserializar-resultado_resize_memoria p h0 = (
  rw (deserializar_resultado_resize_memoria, leer_int-final p.resultado h0),
  omega (arith, length-bytes_int p.resultado),
)

-- The payload of a write to the memory, with integers that fit an `int`, a number of bytes
-- that fits an `int`, is read back as it was written, and its bytes fill exactly what is
-- allocated for them.
deserializar-escribir_memoria :
    (p : EscribirMemoria)
    → IsInt p.pid
    → IsInt p.direccion
    → length p.dato < 2 ^ 31
    → (deserializar_escribir_memoria (serializar_escribir_memoria p).0 ≡ some p)
      × (length (serializar_escribir_memoria p).0 ≡ (serializar_escribir_memoria p).1)
unfolding serializar_escribir_memoria deserializar_escribir_memoria
deserializar-escribir_memoria p h0 h1 h2 = (
  rw (
    deserializar_escribir_memoria,
    leer_int-bytes_int p.pid
        (bytes_int p.direccion ++ (bytes_int (pos (length p.dato)) ++ (p.dato))) h0,
    leer_int-bytes_int p.direccion (bytes_int (pos (length p.dato)) ++ (p.dato)) h1,
    leer_int-bytes_int (pos (length p.dato)) p.dato h2,
    leer_tantos-final p.dato,
  ),
  omega (
    arith,
    length-bytes_int p.pid,
    length-append (bytes_int p.pid)
        (bytes_int p.direccion ++ (bytes_int (pos (length p.dato)) ++ (p.dato))),
    length-bytes_int p.direccion,
    length-append (bytes_int p.direccion) (bytes_int (pos (length p.dato)) ++ (p.dato)),
    length-bytes_int (pos (length p.dato)),
    length-append (bytes_int (pos (length p.dato))) p.dato,
  ),
)

pub deserializar-leer_memoria :
    (p : LeerMemoria)
    → IsInt p.direccion
    → IsInt p.size_cadena
    → (deserializar_leer_memoria (serializar_leer_memoria p).0 ≡ some p)
      × (length (serializar_leer_memoria p).0 ≡ (serializar_leer_memoria p).1)
unfolding serializar_leer_memoria deserializar_leer_memoria
deserializar-leer_memoria p h0 h1 = (
  rw (
    deserializar_leer_memoria,
    leer_int-bytes_int p.direccion (bytes_int p.size_cadena) h0,
    leer_int-final p.size_cadena h1,
  ),
  omega (
    arith,
    length-bytes_int p.direccion,
    length-append (bytes_int p.direccion) (bytes_int p.size_cadena),
    length-bytes_int p.size_cadena,
  ),
)

pub deserializar-enviar_dato_memoria :
    (p : EnviarDatoMemoria)
    → IsInt p.direccion
    → length p.dato < 2 ^ 31
    → (deserializar_enviar_dato_memoria (serializar_enviar_dato_memoria p).0 ≡ some p)
      × (length (serializar_enviar_dato_memoria p).0 ≡ (serializar_enviar_dato_memoria p).1)
unfolding serializar_enviar_dato_memoria deserializar_enviar_dato_memoria
deserializar-enviar_dato_memoria p h0 h1 = (
  rw (
    deserializar_enviar_dato_memoria,
    leer_int-bytes_int p.direccion (bytes_int (pos (length p.dato)) ++ (p.dato)) h0,
    leer_int-bytes_int (pos (length p.dato)) p.dato h1,
    leer_tantos-final p.dato,
  ),
  omega (
    arith,
    length-bytes_int p.direccion,
    length-append (bytes_int p.direccion) (bytes_int (pos (length p.dato)) ++ (p.dato)),
    length-bytes_int (pos (length p.dato)),
    length-append (bytes_int (pos (length p.dato))) p.dato,
  ),
)

pub deserializar-solicitar_dato_memoria :
    (p : SolicitarDatoMemoria)
    → IsInt p.direccion
    → IsInt p.tam
    → IsInt p.pid
    → (deserializar_solicitar_dato_memoria (serializar_solicitar_dato_memoria p).0 ≡ some p)
      × (length (serializar_solicitar_dato_memoria p).0 ≡ (serializar_solicitar_dato_memoria p).1)
unfolding serializar_solicitar_dato_memoria deserializar_solicitar_dato_memoria
deserializar-solicitar_dato_memoria p h0 h1 h2 = (
  rw (
    deserializar_solicitar_dato_memoria,
    leer_int-bytes_int p.direccion (bytes_int p.tam ++ (bytes_int p.pid)) h0,
    leer_int-bytes_int p.tam (bytes_int p.pid) h1,
    leer_int-final p.pid h2,
  ),
  omega (
    arith,
    length-bytes_int p.direccion,
    length-append (bytes_int p.direccion) (bytes_int p.tam ++ (bytes_int p.pid)),
    length-bytes_int p.tam,
    length-append (bytes_int p.tam) (bytes_int p.pid),
    length-bytes_int p.pid,
  ),
)

pub deserializar-get_instruccion :
    (p : GetInstruccion)
    → IsCadena p.instruccion
    → (deserializar_get_instruccion (serializar_get_instruccion p).0 ≡ some p)
      × (length (serializar_get_instruccion p).0 ≡ (serializar_get_instruccion p).1)
unfolding serializar_get_instruccion deserializar_get_instruccion
deserializar-get_instruccion p h0 = (
  rw (deserializar_get_instruccion, leer_cadena-final p.instruccion h0),
  omega (arith, length-bytes_cadena p.instruccion),
)

pub deserializar-recibir_string_io_stdin :
    (p : RecibirStringIoStdin)
    → IsCadena p.string
    → length p.string + 1 < 2 ^ 31
    → (deserializar_recibir_string_io_stdin (serializar_recibir_string_io_stdin p).0 ≡ some p)
      × (length (serializar_recibir_string_io_stdin p).0 ≡ (serializar_recibir_string_io_stdin p).1)
unfolding serializar_recibir_string_io_stdin deserializar_recibir_string_io_stdin
deserializar-recibir_string_io_stdin p h0 h1 = (
  rw (deserializar_recibir_string_io_stdin, leer_con_tamano-final p.string h0 h1),
  omega (arith, length-bytes_con_tamano p.string),
)

-- The payload of a process to create, with integers that fit an `int`, texts without a null
-- byte, is read back as it was written, and its bytes fill exactly what is allocated for them.
deserializar-crear_proceso :
    (p : CrearProceso)
    → IsInt p.pid
    → IsCadena p.path
    → (deserializar_crear_proceso (serializar_crear_proceso p).0 ≡ some p)
      × (length (serializar_crear_proceso p).0 ≡ (serializar_crear_proceso p).1)
unfolding serializar_crear_proceso deserializar_crear_proceso
deserializar-crear_proceso p h0 h1 = (
  rw (
    deserializar_crear_proceso,
    leer_int-bytes_int p.pid (bytes_cadena p.path) h0,
    leer_cadena-final p.path h1,
  ),
  omega (
    arith,
    length-bytes_int p.pid,
    length-append (bytes_int p.pid) (bytes_cadena p.path),
    length-bytes_cadena p.path,
  ),
)

-- The payload of a new interface, with texts without a null byte, is read back as it was
-- written, and its bytes fill exactly what is allocated for them.
deserializar-interfaz_creada :
    (p : InterfazCreada)
    → IsCadena p.nombre
    → IsCadena p.tipo_interfaz
    → (deserializar_interfaz_creada (serializar_interfaz_creada p).0 ≡ some p)
      × (length (serializar_interfaz_creada p).0 ≡ (serializar_interfaz_creada p).1)
unfolding serializar_interfaz_creada deserializar_interfaz_creada
deserializar-interfaz_creada p h0 h1 = (
  rw (
    deserializar_interfaz_creada,
    leer_cadena-bytes_cadena p.nombre (bytes_cadena p.tipo_interfaz) h0,
    leer_cadena-final p.tipo_interfaz h1,
  ),
  omega (
    arith,
    length-bytes_cadena p.nombre,
    length-append (bytes_cadena p.nombre) (bytes_cadena p.tipo_interfaz),
    length-bytes_cadena p.tipo_interfaz,
  ),
)
