-- ===== src/Utils/Serializacion/Llamadas.antt =====
-- serializacion.c: the payloads of the system calls, which carry the block of the process.
-- A serializer gives its buffer and the size that it allocates; an `int` takes 4 bytes.
pub mod Vuelta
use tp_sistemas_operativos_c.Common.{
  ℕ, ◌+◌, ◌^◌, ◌<◌, ◌≡◌, List, ◌∷◌, [], ◌++◌, Option, none, some, length, length-append, ℤ, pos,
  arith,
}
use tp_sistemas_operativos_c.Utils.Serializacion.{
  ◌>>=◌, bytes_int, leer_int, bytes_cadena, leer_cadena, leer_bytes, leer_tantos, bytes_con_tamano,
  leer_con_tamano,
}

-- `t_payload_wait_signal`
pub record WaitSignal : Type 0 where
  pub pcb : List ℕ
  pub recurso : List ℕ

-- `t_payload_io_stdin_read`
pub record IoStdinRead : Type 0 where
  pub pcb : List ℕ
  pub tam : ℤ
  pub interfaz : List ℕ
  pub dir_fisica : ℤ

-- `t_payload_io_stdout_write`
pub record IoStdoutWrite : Type 0 where
  pub interfaz : List ℕ
  pub direccion_fisica : ℤ
  pub tam : ℤ
  pub pcb : List ℕ

-- `t_payload_io_gen_sleep`
pub record IoGenSleep : Type 0 where
  pub interfaz : List ℕ
  pub tiempo : ℤ
  pub pcb : List ℕ

-- `t_payload_fs_create`
pub record FsCreate : Type 0 where
  pub interfaz : List ℕ
  pub nombre_archivo : List ℕ
  pub pcb : List ℕ

-- `t_payload_fs_truncate`
pub record FsTruncate : Type 0 where
  pub interfaz : List ℕ
  pub nombre_archivo : List ℕ
  pub tam : ℤ
  pub pcb : List ℕ

-- `t_payload_fs_writeORread`
pub record FsWriteOrRead : Type 0 where
  pub interfaz : List ℕ
  pub nombre_archivo : List ℕ
  pub tam : ℤ
  pub dir_fisica : ℤ
  pub puntero_archivo : ℤ
  pub pcb : List ℕ

module _ (size_pcb : ℕ) where
  unfoldable pub serializar_wait_signal : WaitSignal → List ℕ × ℕ
  serializar_wait_signal p = (p.pcb ++ (bytes_cadena p.recurso), size_pcb + (length p.recurso + 1))

  unfoldable pub deserializar_wait_signal : List ℕ → Option WaitSignal
  deserializar_wait_signal bs = do
    x0 ← leer_bytes size_pcb bs
    x1 ← leer_cadena x0.1
    some (record { pcb = x0.0; recurso = x1.0 })

  unfoldable pub serializar_io_stdin_read : IoStdinRead → List ℕ × ℕ
  serializar_io_stdin_read p = (
    p.pcb ++ (bytes_int p.tam ++ (bytes_cadena p.interfaz ++ (bytes_int p.dir_fisica))),
    size_pcb + 4 + (length p.interfaz + 1) + 4,
  )

  unfoldable pub deserializar_io_stdin_read : List ℕ → Option IoStdinRead
  deserializar_io_stdin_read bs = do
    x0 ← leer_bytes size_pcb bs
    x1 ← leer_int x0.1
    x2 ← leer_cadena x1.1
    x3 ← leer_int x2.1
    some (record { pcb = x0.0; tam = x1.0; interfaz = x2.0; dir_fisica = x3.0 })

  unfoldable pub serializar_io_stdout_write : IoStdoutWrite → List ℕ × ℕ
  serializar_io_stdout_write p = (
    bytes_con_tamano p.interfaz ++ (bytes_int p.direccion_fisica ++ (bytes_int p.tam ++ (p.pcb))),
    (4 + (length p.interfaz + 1)) + 4 + 4 + size_pcb,
  )

  unfoldable pub deserializar_io_stdout_write : List ℕ → Option IoStdoutWrite
  deserializar_io_stdout_write bs = do
    x0 ← leer_con_tamano bs
    x1 ← leer_int x0.1
    x2 ← leer_int x1.1
    x3 ← leer_bytes size_pcb x2.1
    some (record { interfaz = x0.0; direccion_fisica = x1.0; tam = x2.0; pcb = x3.0 })

  unfoldable pub serializar_io_gen_sleep : IoGenSleep → List ℕ × ℕ
  serializar_io_gen_sleep p = (
    bytes_cadena p.interfaz ++ (bytes_int p.tiempo ++ (p.pcb)),
    (length p.interfaz + 1) + 4 + size_pcb,
  )

  unfoldable pub deserializar_io_gen_sleep : List ℕ → Option IoGenSleep
  deserializar_io_gen_sleep bs = do
    x0 ← leer_cadena bs
    x1 ← leer_int x0.1
    x2 ← leer_bytes size_pcb x1.1
    some (record { interfaz = x0.0; tiempo = x1.0; pcb = x2.0 })

  unfoldable pub serializar_fs_create : FsCreate → List ℕ × ℕ
  serializar_fs_create p = (
    bytes_con_tamano p.interfaz ++ (bytes_con_tamano p.nombre_archivo ++ (p.pcb)),
    (4 + (length p.interfaz + 1)) + (4 + (length p.nombre_archivo + 1)) + size_pcb,
  )

  unfoldable pub deserializar_fs_create : List ℕ → Option FsCreate
  deserializar_fs_create bs = do
    x0 ← leer_con_tamano bs
    x1 ← leer_con_tamano x0.1
    x2 ← leer_bytes size_pcb x1.1
    some (record { interfaz = x0.0; nombre_archivo = x1.0; pcb = x2.0 })

  unfoldable pub serializar_fs_truncate : FsTruncate → List ℕ × ℕ
  serializar_fs_truncate p = (
    bytes_cadena p.interfaz ++ (bytes_cadena p.nombre_archivo ++ (bytes_int p.tam ++ (p.pcb))),
    (length p.interfaz + 1) + (length p.nombre_archivo + 1) + 4 + size_pcb,
  )

  unfoldable pub deserializar_fs_truncate : List ℕ → Option FsTruncate
  deserializar_fs_truncate bs = do
    x0 ← leer_cadena bs
    x1 ← leer_cadena x0.1
    x2 ← leer_int x1.1
    x3 ← leer_bytes size_pcb x2.1
    some (record { interfaz = x0.0; nombre_archivo = x1.0; tam = x2.0; pcb = x3.0 })

  unfoldable pub serializar_fs_write_or_read : FsWriteOrRead → List ℕ × ℕ
  serializar_fs_write_or_read p = (
    bytes_cadena p.interfaz
        ++ (bytes_cadena p.nombre_archivo
            ++ (bytes_int p.tam
                ++ (bytes_int p.dir_fisica ++ (bytes_int p.puntero_archivo ++ (p.pcb))))),
    (length p.interfaz + 1) + (length p.nombre_archivo + 1) + 4 + 4 + 4 + size_pcb,
  )

  unfoldable pub deserializar_fs_write_or_read : List ℕ → Option FsWriteOrRead
  deserializar_fs_write_or_read bs = do
    x0 ← leer_cadena bs
    x1 ← leer_cadena x0.1
    x2 ← leer_int x1.1
    x3 ← leer_int x2.1
    x4 ← leer_int x3.1
    x5 ← leer_bytes size_pcb x4.1
    some (record {
      interfaz = x0.0;
      nombre_archivo = x1.0;
      tam = x2.0;
      dir_fisica = x3.0;
      puntero_archivo = x4.0;
      pcb = x5.0;
    })
