-- ===== src/Utils/Tests.antt =====
-- The payloads on small values, with blocks of three bytes.
use tp_sistemas_operativos_c.Common.{◌≡◌, ◌∷◌, [], some, length, refl, pos, arith}
use tp_sistemas_operativos_c.Utils.Serializacion.Llamadas.{
  FsWriteOrRead, serializar_fs_write_or_read, deserializar_fs_write_or_read,
}
use tp_sistemas_operativos_c.Utils.Serializacion.Llamadas.Vuelta.{deserializar-fs_write_or_read}

abbrev un_fs_write_or_read : FsWriteOrRead
un_fs_write_or_read = record {
  interfaz = 65 ∷ 66 ∷ [];
  nombre_archivo = 65 ∷ 66 ∷ [];
  tam = pos 7;
  dir_fisica = pos 7;
  puntero_archivo = pos 7;
  pcb = 1 ∷ 0 ∷ 9 ∷ [];
}

deserializar-fs_write_or_read_example :
    (deserializar_fs_write_or_read 3 (serializar_fs_write_or_read 3 un_fs_write_or_read).0
      ≡ some un_fs_write_or_read)
    × (length (serializar_fs_write_or_read 3 un_fs_write_or_read).0
        ≡ (serializar_fs_write_or_read 3 un_fs_write_or_read).1)
deserializar-fs_write_or_read_example =
    deserializar-fs_write_or_read 3 un_fs_write_or_read (ground arith, (ground arith, tt))
      (ground arith, (ground arith, tt)) (ground arith) (ground arith) (ground arith) refl
