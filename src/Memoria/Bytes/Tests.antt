-- ===== src/Memoria/Bytes/Tests.antt =====
-- Reading and writing on a small memory: four frames of four bytes.
use tp_sistemas_operativos_c.Common.{
  ℕ, ◌+◌, ◌-◌, ◌*◌, ◌%◌, ◌<◌, ◌≡◌, ◌≢◌, refl, List, [], ◌∷◌, some, arith, get, nat_eq,
}
use tp_sistemas_operativos_c.Memoria.Procesos.{Proceso, Memoria, proceso_por_pid}
use tp_sistemas_operativos_c.Memoria.Bytes.{
  hecho, sin_turnos, escribir_memoria, obtener_dato_memoria,
}
use tp_sistemas_operativos_c.Memoria.Bytes.Accesos.{IsMapa, AreClaves}
use tp_sistemas_operativos_c.Memoria.Bytes.Contrato.{obtener-escribir, accesos-terminan}

-- Page 0 is in frame 2 and page 1 in frame 0.
abbrev pub proceso : Proceso
proceso = record { pid = 1; instrucciones = []; tabla_de_paginas = (0, 2) ∷ (1, 0) ∷ [] }

abbrev memoria : Memoria ℕ
memoria = record { max_procesos = 4; procesos = proceso ∷ []; marcos_libres = 0 }

abbrev pub claves : List (ℕ × ℕ) → List ℕ
claves t = 1 ∷ 0 ∷ []

abbrev pub en_blanco : ℕ → ℕ
en_blanco a = 0

abbrev pub datos : List ℕ
datos = 11 ∷ 12 ∷ 13 ∷ 14 ∷ 15 ∷ []

esta : proceso_por_pid 1 memoria.procesos ≡ some proceso
unfolding proceso_por_pid
esta = refl

pub proceso-IsMapa : IsMapa 4 16 proceso.tabla_de_paginas
unfolding get
proceso-IsMapa = record {
  dentro = λ i k h. ground (arith, h);
  distintas = λ i j k h g. ground (arith, h, g);
}

pub claves-AreClaves : AreClaves claves proceso.tabla_de_paginas
unfolding get
claves-AreClaves i k h = ground (arith, h)

hay : (j : ℕ) → j * 4 + (4 - 10 % 4) < 5 → (k : ℕ) × (get (1 + j) proceso.tabla_de_paginas ≡ some k)
unfolding get
hay j h = (0, ground (arith, h))

obtener-escribir_example :
    (f' : ℕ → ℕ) × (escribir_memoria 4 16 claves 1 10 datos memoria en_blanco ≡ hecho f')
    × (obtener_dato_memoria 4 16 claves 1 10 5 memoria f' ≡ hecho (some datos))
unfolding get
obtener-escribir_example =
    obtener-escribir claves 4 16 1 10 0 datos memoria en_blanco proceso (omega arith) esta
      proceso-IsMapa claves-AreClaves refl hay

accesos-terminan_example :
    (escribir_memoria 4 16 claves 1 10 datos memoria en_blanco ≢ sin_turnos)
    × (obtener_dato_memoria 4 16 claves 1 10 7 memoria en_blanco ≢ sin_turnos)
accesos-terminan_example = accesos-terminan claves 4 16 1 10 7 datos memoria en_blanco (omega arith)
