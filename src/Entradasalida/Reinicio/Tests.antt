-- ===== src/Entradasalida/Reinicio/Tests.antt =====
-- The disk with the files B and C, after a start.
use tp_sistemas_operativos_c.Common.{
  ◌≡◌, refl, String, Bool, true, false, ◌||◌, none, some, if◌then◌else◌, arith, get, put, remove,
  str_eq, string_eq, eq_iff, Bool-cases, inl, inr,
}
use tp_sistemas_operativos_c.Entradasalida.{Metadata}
use tp_sistemas_operativos_c.Entradasalida.Diccionario.{incializar_el_diccionario}
use tp_sistemas_operativos_c.Entradasalida.Operaciones.{existe, crear_archivo, delete_archivo}
use tp_sistemas_operativos_c.Entradasalida.Disco.{IsDisco}
use tp_sistemas_operativos_c.Entradasalida.Reinicio.{oculto, incializar_el_diccionario-IsDisco}
use tp_sistemas_operativos_c.Entradasalida.Tests.{ocho, sin_a, sin_a-IsDisco}

abbrev empieza : String → String → Bool
empieza s p = str_eq s p

abbrev termina : String → String → Bool
termina s p = str_eq s p || str_eq s "bitmap.dat"

abbrev en_disco : String → Metadata
en_disco n = record { bloque_inicial = if str_eq n "B" then 1 else 2; tam_archivo = 0 }

guardado : (m : String) (f : Metadata) → get m sin_a.diccionario ≡ some f → en_disco m ≡ f
unfolding crear_archivo delete_archivo get put remove
guardado m f h = ground (arith, eq_iff "B" m, eq_iff "C" m, eq_iff m "B")

visible :
    (m : String) (f : Metadata)
    → get m sin_a.diccionario ≡ some f
    → oculto empieza termina m ≡ false
unfolding crear_archivo delete_archivo get put remove
visible m f h = elim (Bool-cases (str_eq "B" m)) [
  | inl e ↦ rw (← (eq_iff "B" m).0 e) refl
  | inr e ↦ elim (Bool-cases (str_eq "C" m)) [
    | inl x ↦ rw (← (eq_iff "C" m).0 x) refl
    | inr x ↦ absurd (ground (arith, h))
  ]
]

solo :
    (m : String)
    → existe m sin_a.directorio ≡ true
    → get m sin_a.diccionario ≡ none
    → oculto empieza termina m ≡ true
unfolding crear_archivo delete_archivo existe get put remove
solo m h x =
    ground (arith, eq_iff "B" m, eq_iff "C" m, eq_iff "bitmap.dat" m, eq_iff m "bitmap.dat")

reinicio_example :
    let d = incializar_el_diccionario empieza termina en_disco sin_a.directorio in
    ((m : String) → get m d ≡ get m sin_a.diccionario)
    × IsDisco ocho 2 8 (record sin_a { diccionario = d })
reinicio_example =
    incializar_el_diccionario-IsDisco empieza termina en_disco ocho 2 8 sin_a sin_a-IsDisco guardado
      visible solo
