-- ===== src/Utils/Serializacion/Memoria.antt =====
-- serializacion.c: the payloads with no process control block, most of them with the memory.
-- A serializer gives its buffer and the size that it allocates; an `int` takes 4 bytes.
pub mod Vuelta
use tp_sistemas_operativos_c.Common.{
  ℕ, ◌+◌, ◌^◌, ◌<◌, ◌≡◌, List, ◌∷◌, [], ◌++◌, Option, none, some, length, length-append, ℤ, pos,
  arith,
}
use tp_sistemas_operativos_c.Utils.Serializacion.{
  ◌>>=◌, bytes_int, leer_int, bytes_cadena, leer_cadena, leer_bytes, leer_tantos, bytes_con_tamano,
  leer_con_tamano,
}

-- `t_payload_resize_memoria`
pub record ResizeMemoria : Type 0 where
  pub pid : ℤ
  pub tam : ℤ

-- `t_payload_resultado_resize_memoria`
pub record ResultadoResizeMemoria : Type 0 where
  pub resultado : ℤ

-- `t_payload_escribir_memoria`
pub record EscribirMemoria : Type 0 where
  pub pid : ℤ
  pub direccion : ℤ
  pub dato : List ℕ

-- `t_payload_leer_memoria`
pub record LeerMemoria : Type 0 where
  pub direccion : ℤ
  pub size_cadena : ℤ

-- `t_payload_enviar_dato_memoria`
pub record EnviarDatoMemoria : Type 0 where
  pub direccion : ℤ
  pub dato : List ℕ

-- `t_payload_solicitar_dato_memoria`
pub record SolicitarDatoMemoria : Type 0 where
  pub direccion : ℤ
  pub tam : ℤ
  pub pid : ℤ

-- `t_payload_get_instruccion`
pub record GetInstruccion : Type 0 where
  pub instruccion : List ℕ

-- `t_payload_recibir_string_io_stdin`
pub record RecibirStringIoStdin : Type 0 where
  pub string : List ℕ

-- `t_payload_crear_proceso`
pub record CrearProceso : Type 0 where
  pub pid : ℤ
  pub path : List ℕ

-- `t_payload_interfaz_creada`
pub record InterfazCreada : Type 0 where
  pub nombre : List ℕ
  pub tipo_interfaz : List ℕ

unfoldable pub serializar_resize_memoria : ResizeMemoria → List ℕ × ℕ
serializar_resize_memoria p = (bytes_int p.pid ++ (bytes_int p.tam), 4 + 4)

unfoldable pub deserializar_resize_memoria : List ℕ → Option ResizeMemoria
deserializar_resize_memoria bs = do
  x0 ← leer_int bs
  x1 ← leer_int x0.1
  some (record { pid = x0.0; tam = x1.0 })

unfoldable pub serializar_resultado_resize_memoria : ResultadoResizeMemoria → List ℕ × ℕ
serializar_resultado_resize_memoria p = (bytes_int p.resultado, 4)

unfoldable pub deserializar_resultado_resize_memoria : List ℕ → Option ResultadoResizeMemoria
deserializar_resultado_resize_memoria bs = do x0 ← leer_int bs; some (record { resultado = x0.0 })

unfoldable pub serializar_escribir_memoria : EscribirMemoria → List ℕ × ℕ
serializar_escribir_memoria p = (
  bytes_int p.pid ++ (bytes_int p.direccion ++ (bytes_int (pos (length p.dato)) ++ (p.dato))),
  4 + 4 + (4 + length p.dato),
)

unfoldable pub deserializar_escribir_memoria : List ℕ → Option EscribirMemoria
deserializar_escribir_memoria bs = do
  x0 ← leer_int bs
  x1 ← leer_int x0.1
  x2 ← leer_int x1.1
  x3 ← leer_tantos x2.0 x2.1
  some (record { pid = x0.0; direccion = x1.0; dato = x3.0 })

unfoldable pub serializar_leer_memoria : LeerMemoria → List ℕ × ℕ
serializar_leer_memoria p = (bytes_int p.direccion ++ (bytes_int p.size_cadena), 4 + 4)

unfoldable pub deserializar_leer_memoria : List ℕ → Option LeerMemoria
deserializar_leer_memoria bs = do
  x0 ← leer_int bs
  x1 ← leer_int x0.1
  some (record { direccion = x0.0; size_cadena = x1.0 })

unfoldable pub serializar_enviar_dato_memoria : EnviarDatoMemoria → List ℕ × ℕ
serializar_enviar_dato_memoria p = (
  bytes_int p.direccion ++ (bytes_int (pos (length p.dato)) ++ (p.dato)),
  4 + (4 + length p.dato),
)

unfoldable pub deserializar_enviar_dato_memoria : List ℕ → Option EnviarDatoMemoria
deserializar_enviar_dato_memoria bs = do
  x0 ← leer_int bs
  x1 ← leer_int x0.1
  x2 ← leer_tantos x1.0 x1.1
  some (record { direccion = x0.0; dato = x2.0 })

unfoldable pub serializar_solicitar_dato_memoria : SolicitarDatoMemoria → List ℕ × ℕ
serializar_solicitar_dato_memoria p =
    (bytes_int p.direccion ++ (bytes_int p.tam ++ (bytes_int p.pid)), 4 + 4 + 4)

unfoldable pub deserializar_solicitar_dato_memoria : List ℕ → Option SolicitarDatoMemoria
deserializar_solicitar_dato_memoria bs = do
  x0 ← leer_int bs
  x1 ← leer_int x0.1
  x2 ← leer_int x1.1
  some (record { direccion = x0.0; tam = x1.0; pid = x2.0 })

unfoldable pub serializar_get_instruccion : GetInstruccion → List ℕ × ℕ
serializar_get_instruccion p = (bytes_cadena p.instruccion, (length p.instruccion + 1))

unfoldable pub deserializar_get_instruccion : List ℕ → Option GetInstruccion
deserializar_get_instruccion bs = do x0 ← leer_cadena bs; some (record { instruccion = x0.0 })

unfoldable pub serializar_recibir_string_io_stdin : RecibirStringIoStdin → List ℕ × ℕ
serializar_recibir_string_io_stdin p = (bytes_con_tamano p.string, (4 + (length p.string + 1)))

unfoldable pub deserializar_recibir_string_io_stdin : List ℕ → Option RecibirStringIoStdin
deserializar_recibir_string_io_stdin bs = do
  x0 ← leer_con_tamano bs
  some (record { string = x0.0 })

unfoldable pub serializar_crear_proceso : CrearProceso → List ℕ × ℕ
serializar_crear_proceso p = (bytes_int p.pid ++ (bytes_cadena p.path), 4 + (length p.path + 1))

unfoldable pub deserializar_crear_proceso : List ℕ → Option CrearProceso
deserializar_crear_proceso bs = do
  x0 ← leer_int bs
  x1 ← leer_cadena x0.1
  some (record { pid = x0.0; path = x1.0 })

unfoldable pub serializar_interfaz_creada : InterfazCreada → List ℕ × ℕ
serializar_interfaz_creada p = (
  bytes_cadena p.nombre ++ (bytes_cadena p.tipo_interfaz),
  (length p.nombre + 1) + (length p.tipo_interfaz + 1),
)

unfoldable pub deserializar_interfaz_creada : List ℕ → Option InterfazCreada
deserializar_interfaz_creada bs = do
  x0 ← leer_cadena bs
  x1 ← leer_cadena x0.1
  some (record { nombre = x0.0; tipo_interfaz = x1.0 })
