-- ===== src/Entradasalida/Diccionario.antt =====
-- entradasalida/src/diccionario.c: the metadata of the files. The order in which so-commons lists the
-- elements of a dictionary is the argument `elementos`.
use tp_sistemas_operativos_c.Common.{
  ℕ, ◌+◌, ◌==◌, String, Bool, ◌||◌, List, [], ◌∷◌, Option, none, some, if◌then◌else◌, put,
  string_eq, ℤ, sub_ℕ,
}
use tp_sistemas_operativos_c.Entradasalida.{Metadata, Fs, bloques_para}

abbrev pub Diccionario : Type 0
Diccionario = List (String × Metadata)

module _ (block_size : ℕ) where
  -- The loop of espacioLIbre, with its accumulator.
  unfoldable pub acumular_bloques : Diccionario → ℕ → ℕ
  unfolding bloques_para
  acumular_bloques [] acumulador_bloques = acumulador_bloques
  acumular_bloques ((_, f) ∷ l) acumulador_bloques = acumular_bloques l (
      acumulador_bloques
      + (if f.tam_archivo == 0 then 1 else bloques_para block_size f.tam_archivo))

  -- An `int`, which may be negative.
  unfoldable pub espacio_libre : (Diccionario → Diccionario) → ℕ → Diccionario → ℕ → ℤ
  unfolding acumular_bloques
  espacio_libre elementos block_count d bloques_del_archivo =
      sub_ℕ (block_count + bloques_del_archivo) (acumular_bloques (elementos d) 0)

-- The first element that starts at the block, with its key.
unfoldable pub fcb_x_inicio : Diccionario → ℕ → Option (String × Metadata)
fcb_x_inicio [] bloque_inicio = none
fcb_x_inicio ((nombre, f) ∷ l) bloque_inicio =
    if f.bloque_inicial == bloque_inicio then some (nombre, f) else fcb_x_inicio l bloque_inicio

unfoldable pub get_fcb_x_inicio :
    (Diccionario → Diccionario) → Diccionario → ℕ → Option (String × Metadata)
unfolding fcb_x_inicio
get_fcb_x_inicio elementos d = fcb_x_inicio (elementos d)

unfoldable pub cargar_diccionario_nuevo : {B : Type 0} → String → ℕ → Fs B → Fs B
cargar_diccionario_nuevo nombre inicial s = record s {
  diccionario = put nombre (record { bloque_inicial = inicial; tam_archivo = 0 }) s.diccionario;
}

-- The tests on texts are so-commons'; `en_disco` is what the file of that name holds, read as metadata.
module _ (string_starts_with string_ends_with : String → String → Bool)
    (en_disco : String → Metadata) where
  unfoldable pub cargar_entradas : List String → Diccionario → Diccionario
  cargar_entradas [] d = d
  cargar_entradas (nombre ∷ l) d = cargar_entradas l (
      if string_starts_with nombre "." || string_ends_with nombre "dat"
      then d
      else put nombre (en_disco nombre) d)

  unfoldable pub incializar_el_diccionario : List String → Diccionario
  unfolding cargar_entradas
  incializar_el_diccionario entradas = cargar_entradas entradas []
