-- ===== src/Memoria/Peticiones/Tests.antt =====
-- The CPU and the memory on a small process.
use tp_sistemas_operativos_c.Common.{
  ℕ, suc, ◌+◌, ◌-◌, ◌*◌, ◌/◌, ◌%◌, ◌<◌, ◌≡◌, refl, str_eq, Bool, [], some, none, take, arith, pos,
  get, nat_eq,
}
use tp_sistemas_operativos_c.Cpu.Tlb.{Tlb}
use tp_sistemas_operativos_c.Cpu.Mmu.{calcular_direccion_fisica}
use tp_sistemas_operativos_c.Memoria.Procesos.{proceso_por_pid}
use tp_sistemas_operativos_c.Memoria.Bytes.{hecho}
use tp_sistemas_operativos_c.Memoria.Tests.{cuatro, marcos, libres, con}
use tp_sistemas_operativos_c.Memoria.Bytes.Tests.{
  proceso, claves, en_blanco, datos, proceso-IsMapa, claves-AreClaves,
}
use tp_sistemas_operativos_c.Memoria.Bytes.Recorrido.{IsFuera}
use tp_sistemas_operativos_c.Memoria.Peticiones.Aislada.{escribir_en-aislada}
use tp_sistemas_operativos_c.Memoria.Peticiones.{
  Estado, escribir_en, atender_cpu, escribir, solicitar_dato_memoria, dato_memoria,
}
use tp_sistemas_operativos_c.Memoria.Peticiones.Traduccion.{tabla_de, escribir-leer_logica}

abbrev estado : Estado (ℕ → Bool)
estado = record { memoria = con proceso libres; bytes = en_blanco }

abbrev vacia : Tlb
vacia = record { entradas = []; lru_peticiones = none }

esta : proceso_por_pid 1 estado.memoria.procesos ≡ some proceso
unfolding proceso_por_pid
esta = refl

hay :
    (j : ℕ)
    → j * 4 + (4 - 2 % 4) < 5
    → (m : ℕ) × (get (suc (2 / 4) + j) proceso.tabla_de_paginas ≡ some m)
unfolding get
hay j h = (0, ground (arith, h))

escribir-leer_logica_example :
    let d =
      (calcular_direccion_fisica str_eq 4 "LRU"
        (tabla_de cuatro marcos claves 4 16 (pos 0) estado)
        4
        0
        1
        (pos 2)
        vacia).0 in
    (s' : Estado (ℕ → Bool)) × (atender_cpu cuatro marcos claves 4 16
        (pos 0)
        (escribir 1 d datos)
        estado
      ≡ hecho (dato_memoria (some (take 8 datos)), s'))
    × (atender_cpu cuatro marcos claves 4 16 (pos 0) (solicitar_dato_memoria 1 d 5) s'
        ≡ hecho (dato_memoria (some datos), s'))
unfolding get
escribir-leer_logica_example =
    escribir-leer_logica cuatro marcos claves 4 16 (pos 0) str_eq 4 "LRU" 0 1 2 2 datos vacia estado
      proceso (omega arith) esta proceso-IsMapa claves-AreClaves refl hay tt

escribir_en-aislada_example :
    (f : ℕ → ℕ) × (escribir_en cuatro marcos claves 4 16 1 (pos 10) datos estado ≡ hecho f)
    × ((x : ℕ)
        → ((i k : ℕ) → get i proceso.tabla_de_paginas ≡ some k → IsFuera 4 k x)
        → f x ≡ en_blanco x)
escribir_en-aislada_example =
    escribir_en-aislada cuatro marcos claves 4 16 1 (pos 10) datos estado proceso (omega arith) esta
      proceso-IsMapa tt
