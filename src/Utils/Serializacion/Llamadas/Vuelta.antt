-- ===== src/Utils/Serializacion/Llamadas/Vuelta.antt =====
-- serializacion.c: the payloads of the system calls, which carry the block of the process.
use tp_sistemas_operativos_c.Common.{
  ℕ, ◌+◌, ◌^◌, ◌<◌, ◌≡◌, ◌++◌, some, length, length-append, arith,
}
use tp_sistemas_operativos_c.Utils.Serializacion.{bytes_int, bytes_cadena, bytes_con_tamano}
use tp_sistemas_operativos_c.Utils.Serializacion.Primitivas.{
  IsInt, IsCadena, leer_int-bytes_int, leer_int-final, leer_cadena-bytes_cadena, leer_cadena-final,
  leer_con_tamano-bytes_con_tamano, leer_bytes-largo, leer_bytes-final, length-bytes_int,
  length-bytes_cadena, length-bytes_con_tamano,
}
use tp_sistemas_operativos_c.Utils.Serializacion.Llamadas.{
  WaitSignal, serializar_wait_signal, deserializar_wait_signal, IoStdinRead,
  serializar_io_stdin_read, deserializar_io_stdin_read, IoStdoutWrite, serializar_io_stdout_write,
  deserializar_io_stdout_write, IoGenSleep, serializar_io_gen_sleep, deserializar_io_gen_sleep,
  FsCreate, serializar_fs_create, deserializar_fs_create, FsTruncate, serializar_fs_truncate,
  deserializar_fs_truncate, FsWriteOrRead, serializar_fs_write_or_read,
  deserializar_fs_write_or_read,
}

module _ (size_pcb : ℕ) where
  -- The payload of a WAIT or a SIGNAL, with texts without a null byte, a block of its size, is
  -- read back as it was written, and its bytes fill exactly what is allocated for them.
  deserializar-wait_signal :
      (p : WaitSignal)
      → length p.pcb ≡ size_pcb
      → IsCadena p.recurso
      → (deserializar_wait_signal size_pcb (serializar_wait_signal size_pcb p).0 ≡ some p)
        × (length (serializar_wait_signal size_pcb p).0 ≡ (serializar_wait_signal size_pcb p).1)
  unfolding serializar_wait_signal deserializar_wait_signal
  deserializar-wait_signal p h0 h1 = (
    rw (
      deserializar_wait_signal,
      leer_bytes-largo size_pcb p.pcb (bytes_cadena p.recurso) h0,
      leer_cadena-final p.recurso h1,
    ),
    omega (arith, length-append p.pcb (bytes_cadena p.recurso), length-bytes_cadena p.recurso),
  )

  -- The payload of a read from a keyboard, with integers that fit an `int`, texts without a null
  -- byte, a block of its size, is read back as it was written, and its bytes fill exactly what
  -- is allocated for them.
  deserializar-io_stdin_read :
      (p : IoStdinRead)
      → length p.pcb ≡ size_pcb
      → IsInt p.tam
      → IsCadena p.interfaz
      → IsInt p.dir_fisica
      → (deserializar_io_stdin_read size_pcb (serializar_io_stdin_read size_pcb p).0 ≡ some p)
        × (length (serializar_io_stdin_read size_pcb p).0 ≡ (serializar_io_stdin_read size_pcb p).1)
  unfolding serializar_io_stdin_read deserializar_io_stdin_read
  deserializar-io_stdin_read p h0 h1 h2 h3 = (
    rw (
      deserializar_io_stdin_read,
      leer_bytes-largo size_pcb p.pcb
          (bytes_int p.tam ++ (bytes_cadena p.interfaz ++ (bytes_int p.dir_fisica))) h0,
      leer_int-bytes_int p.tam (bytes_cadena p.interfaz ++ (bytes_int p.dir_fisica)) h1,
      leer_cadena-bytes_cadena p.interfaz (bytes_int p.dir_fisica) h2,
      leer_int-final p.dir_fisica h3,
    ),
    omega (
      arith,
      length-append p.pcb
          (bytes_int p.tam ++ (bytes_cadena p.interfaz ++ (bytes_int p.dir_fisica))),
      length-bytes_int p.tam,
      length-append (bytes_int p.tam) (bytes_cadena p.interfaz ++ (bytes_int p.dir_fisica)),
      length-bytes_cadena p.interfaz,
      length-append (bytes_cadena p.interfaz) (bytes_int p.dir_fisica),
      length-bytes_int p.dir_fisica,
    ),
  )

  -- The payload of a write to a screen, with integers that fit an `int`, texts without a null
  -- byte and of a size that fits an `int`, a block of its size, is read back as it was written,
  -- and its bytes fill exactly what is allocated for them.
  deserializar-io_stdout_write :
      (p : IoStdoutWrite)
      → IsCadena p.interfaz
      → length p.interfaz + 1 < 2 ^ 31
      → IsInt p.direccion_fisica
      → IsInt p.tam
      → length p.pcb ≡ size_pcb
      → (deserializar_io_stdout_write size_pcb (serializar_io_stdout_write size_pcb p).0 ≡ some p)
        × (length (serializar_io_stdout_write size_pcb p).0
            ≡ (serializar_io_stdout_write size_pcb p).1)
  unfolding serializar_io_stdout_write deserializar_io_stdout_write
  deserializar-io_stdout_write p h0 h1 h2 h3 h4 = (
    rw (
      deserializar_io_stdout_write,
      leer_con_tamano-bytes_con_tamano p.interfaz
          (bytes_int p.direccion_fisica ++ (bytes_int p.tam ++ (p.pcb))) h0 h1,
      leer_int-bytes_int p.direccion_fisica (bytes_int p.tam ++ (p.pcb)) h2,
      leer_int-bytes_int p.tam p.pcb h3,
      leer_bytes-final size_pcb p.pcb h4,
    ),
    omega (
      arith,
      length-bytes_con_tamano p.interfaz,
      length-append (bytes_con_tamano p.interfaz)
          (bytes_int p.direccion_fisica ++ (bytes_int p.tam ++ (p.pcb))),
      length-bytes_int p.direccion_fisica,
      length-append (bytes_int p.direccion_fisica) (bytes_int p.tam ++ (p.pcb)),
      length-bytes_int p.tam,
      length-append (bytes_int p.tam) p.pcb,
    ),
  )

  pub deserializar-io_gen_sleep :
      (p : IoGenSleep)
      → IsCadena p.interfaz
      → IsInt p.tiempo
      → length p.pcb ≡ size_pcb
      → (deserializar_io_gen_sleep size_pcb (serializar_io_gen_sleep size_pcb p).0 ≡ some p)
        × (length (serializar_io_gen_sleep size_pcb p).0 ≡ (serializar_io_gen_sleep size_pcb p).1)
  unfolding serializar_io_gen_sleep deserializar_io_gen_sleep
  deserializar-io_gen_sleep p h0 h1 h2 = (
    rw (
      deserializar_io_gen_sleep,
      leer_cadena-bytes_cadena p.interfaz (bytes_int p.tiempo ++ (p.pcb)) h0,
      leer_int-bytes_int p.tiempo p.pcb h1,
      leer_bytes-final size_pcb p.pcb h2,
    ),
    omega (
      arith,
      length-bytes_cadena p.interfaz,
      length-append (bytes_cadena p.interfaz) (bytes_int p.tiempo ++ (p.pcb)),
      length-bytes_int p.tiempo,
      length-append (bytes_int p.tiempo) p.pcb,
    ),
  )

  -- The payload of a file to create or delete, with texts without a null byte and of a size that
  -- fits an `int`, a block of its size, is read back as it was written, and its bytes fill
  -- exactly what is allocated for them.
  deserializar-fs_create :
      (p : FsCreate)
      → IsCadena p.interfaz
      → length p.interfaz + 1 < 2 ^ 31
      → IsCadena p.nombre_archivo
      → length p.nombre_archivo + 1 < 2 ^ 31
      → length p.pcb ≡ size_pcb
      → (deserializar_fs_create size_pcb (serializar_fs_create size_pcb p).0 ≡ some p)
        × (length (serializar_fs_create size_pcb p).0 ≡ (serializar_fs_create size_pcb p).1)
  unfolding serializar_fs_create deserializar_fs_create
  deserializar-fs_create p h0 h1 h2 h3 h4 = (
    rw (
      deserializar_fs_create,
      leer_con_tamano-bytes_con_tamano p.interfaz (bytes_con_tamano p.nombre_archivo ++ (p.pcb)) h0
          h1,
      leer_con_tamano-bytes_con_tamano p.nombre_archivo p.pcb h2 h3,
      leer_bytes-final size_pcb p.pcb h4,
    ),
    omega (
      arith,
      length-bytes_con_tamano p.interfaz,
      length-append (bytes_con_tamano p.interfaz) (bytes_con_tamano p.nombre_archivo ++ (p.pcb)),
      length-bytes_con_tamano p.nombre_archivo,
      length-append (bytes_con_tamano p.nombre_archivo) p.pcb,
    ),
  )

  pub deserializar-fs_truncate :
      (p : FsTruncate)
      → IsCadena p.interfaz
      → IsCadena p.nombre_archivo
      → IsInt p.tam
      → length p.pcb ≡ size_pcb
      → (deserializar_fs_truncate size_pcb (serializar_fs_truncate size_pcb p).0 ≡ some p)
        × (length (serializar_fs_truncate size_pcb p).0 ≡ (serializar_fs_truncate size_pcb p).1)
  unfolding serializar_fs_truncate deserializar_fs_truncate
  deserializar-fs_truncate p h0 h1 h2 h3 = (
    rw (
      deserializar_fs_truncate,
      leer_cadena-bytes_cadena p.interfaz
          (bytes_cadena p.nombre_archivo ++ (bytes_int p.tam ++ (p.pcb))) h0,
      leer_cadena-bytes_cadena p.nombre_archivo (bytes_int p.tam ++ (p.pcb)) h1,
      leer_int-bytes_int p.tam p.pcb h2,
      leer_bytes-final size_pcb p.pcb h3,
    ),
    omega (
      arith,
      length-bytes_cadena p.interfaz,
      length-append (bytes_cadena p.interfaz)
          (bytes_cadena p.nombre_archivo ++ (bytes_int p.tam ++ (p.pcb))),
      length-bytes_cadena p.nombre_archivo,
      length-append (bytes_cadena p.nombre_archivo) (bytes_int p.tam ++ (p.pcb)),
      length-bytes_int p.tam,
      length-append (bytes_int p.tam) p.pcb,
    ),
  )

  -- The payload of a file to write or read, with integers that fit an `int`, texts without a
  -- null byte, a block of its size, is read back as it was written, and its bytes fill exactly
  -- what is allocated for them.
  pub deserializar-fs_write_or_read :
      (p : FsWriteOrRead)
      → IsCadena p.interfaz
      → IsCadena p.nombre_archivo
      → IsInt p.tam
      → IsInt p.dir_fisica
      → IsInt p.puntero_archivo
      → length p.pcb ≡ size_pcb
      → (deserializar_fs_write_or_read size_pcb (serializar_fs_write_or_read size_pcb p).0 ≡ some p)
        × (length (serializar_fs_write_or_read size_pcb p).0
            ≡ (serializar_fs_write_or_read size_pcb p).1)
  unfolding serializar_fs_write_or_read deserializar_fs_write_or_read
  deserializar-fs_write_or_read p h0 h1 h2 h3 h4 h5 = (
    rw (
      deserializar_fs_write_or_read,
      leer_cadena-bytes_cadena p.interfaz
          (bytes_cadena p.nombre_archivo
            ++ (bytes_int p.tam
                ++ (bytes_int p.dir_fisica ++ (bytes_int p.puntero_archivo ++ (p.pcb)))))
          h0,
      leer_cadena-bytes_cadena p.nombre_archivo
          (bytes_int p.tam ++ (bytes_int p.dir_fisica ++ (bytes_int p.puntero_archivo ++ (p.pcb))))
          h1,
      leer_int-bytes_int p.tam (bytes_int p.dir_fisica ++ (bytes_int p.puntero_archivo ++ (p.pcb)))
          h2,
      leer_int-bytes_int p.dir_fisica (bytes_int p.puntero_archivo ++ (p.pcb)) h3,
      leer_int-bytes_int p.puntero_archivo p.pcb h4,
      leer_bytes-final size_pcb p.pcb h5,
    ),
    omega (
      arith,
      length-bytes_cadena p.interfaz,
      length-append (bytes_cadena p.interfaz) (
          bytes_cadena p.nombre_archivo
          ++ (bytes_int p.tam
              ++ (bytes_int p.dir_fisica ++ (bytes_int p.puntero_archivo ++ (p.pcb))))),
      length-bytes_cadena p.nombre_archivo,
      length-append (bytes_cadena p.nombre_archivo)
          (bytes_int p.tam ++ (bytes_int p.dir_fisica ++ (bytes_int p.puntero_archivo ++ (p.pcb)))),
      length-bytes_int p.tam,
      length-append (bytes_int p.tam)
          (bytes_int p.dir_fisica ++ (bytes_int p.puntero_archivo ++ (p.pcb))),
      length-bytes_int p.dir_fisica,
      length-append (bytes_int p.dir_fisica) (bytes_int p.puntero_archivo ++ (p.pcb)),
      length-bytes_int p.puntero_archivo,
      length-append (bytes_int p.puntero_archivo) p.pcb,
    ),
  )
