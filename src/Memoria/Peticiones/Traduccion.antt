-- ===== src/Memoria/Peticiones/Traduccion.antt =====
-- cpu/src/cpu-utils/mmu.c with memoria/src/memoria-utils/conexiones.c: a process that writes and reads
-- at a logical address.
use tp_sistemas_operativos_c.Common.{
  ℕ, suc, ◌+◌, ◌-◌, ◌*◌, ◌/◌, ◌%◌, ◌≤◌, ◌<◌, ◌≡◌, refl, ap, sym, ◌∙◌, Bool, String, List, Option,
  none, some, length, take, arith, ℤ, pos, negsuc, get, nat_eq,
}
use mathlib.Core.Path.{subst}
use tp_sistemas_operativos_c.Cpu.Tlb.{Tlb}
use tp_sistemas_operativos_c.Cpu.Mmu.{
  calcular_direccion_fisica, direccion_fisica as direccion_cpu, buscar_en_tabla_de_paginas,
  numero_pagina,
}
use tp_sistemas_operativos_c.Cpu.Mmu.Coherencia.{IsCoherente, calcular_direccion_fisica-IsCoherente}
use tp_sistemas_operativos_c.Cpu.Mmu.Direccion.{direccion_fisica-cota, unico}
use tp_sistemas_operativos_c.Memoria.Marcos.{Bitarray}
use tp_sistemas_operativos_c.Memoria.Procesos.{
  Proceso, proceso_por_pid, buscar_direccion_fisica_en_tabla_de_paginas,
}
use tp_sistemas_operativos_c.Memoria.Bytes.{Acceso, hecho, escribir_memoria, obtener_dato_memoria}
use tp_sistemas_operativos_c.Memoria.Bytes.Accesos.{IsMapa, AreClaves, marcos-tabla}
use tp_sistemas_operativos_c.Memoria.Bytes.Contrato.{obtener-escribir}
use tp_sistemas_operativos_c.Memoria.Peticiones.{
  solicitar_direccion_fisica, solicitar_dato_memoria, escribir, RespuestaCpu, direccion_fisica,
  dato_memoria, Estado, atender_cpu, escribir_en, leer_en,
}

-- What the CPU reads of an answer to SOLICITAR_DIRECCION_FISICA.
abbrev pub marco_respondido : {E : Type 0} → Acceso (RespuestaCpu × E) → Option ℤ
marco_respondido (hecho (direccion_fisica none, s)) = some (negsuc 0)
marco_respondido (hecho (direccion_fisica (some k), s)) = some (pos k)
marco_respondido _ = none

division : (tam x : ℕ) → 1 ≤ tam → (x % tam < tam) × (x / tam * tam + x % tam ≡ x)
division tam x h = ground arith

-- The frame and the offset of an address are those that it was made of.
en_marco :
    (tam k d : ℕ)
    → 1 ≤ tam
    → ((k * tam + d % tam) / tam ≡ k) × ((k * tam + d % tam) % tam ≡ d % tam)
en_marco tam k d h =
    let x = k * tam + d % tam in
    unico tam (x / tam) k (x % tam) (d % tam) (division tam x h).0 (division tam d h).0
      (division tam x h).1

module _ (a : Bitarray) (elementos claves : List (ℕ × ℕ) → List ℕ) (tam_pagina tam_memoria : ℕ)
    (ajeno : ℤ) where
  abbrev pub tabla_de : Estado a.B → ℕ → ℤ → Option ℤ
  tabla_de s pid pagina = marco_respondido (
      atender_cpu a elementos claves tam_pagina tam_memoria ajeno
        (solicitar_direccion_fisica pid pagina) s)

  tabla-pagina :
      (s : Estado a.B) (pid pagina k : ℕ) (p : Proceso)
      → proceso_por_pid pid s.memoria.procesos ≡ some p
      → get pagina p.tabla_de_paginas ≡ some k
      → buscar_en_tabla_de_paginas (tabla_de s) pid (pos pagina) ≡ pos k
  unfolding buscar_en_tabla_de_paginas atender_cpu
  tabla-pagina s pid pagina k p e g =
      let r : buscar_direccion_fisica_en_tabla_de_paginas pid (pos pagina) s.memoria ≡ some k =
        marcos-tabla claves tam_pagina tam_memoria pid pagina s.memoria p e ∙ g in
      ap
        (λ o.
          buscar_en_tabla_de_paginas (λ q n. marco_respondido (hecho (direccion_fisica o, s))) pid
            (pos pagina))
        r

  -- The CPU's address of a page with a frame, whatever its cache holds.
  direccion-traducida :
      (eq_ic : String → String → Bool) (tlb_max_size : ℕ) (algoritmo : String) (ahora pid dir k : ℕ)
      (t : Tlb) (s : Estado a.B) (p : Proceso)
      → 1 ≤ tam_pagina
      → proceso_por_pid pid s.memoria.procesos ≡ some p
      → get (dir / tam_pagina) p.tabla_de_paginas ≡ some k
      → IsCoherente (tabla_de s) t.entradas
      → (calcular_direccion_fisica eq_ic tlb_max_size algoritmo
          (tabla_de s)
          tam_pagina
          ahora
          pid
          (pos dir)
          t).0
        ≡ pos (k * tam_pagina + dir % tam_pagina)
  unfolding numero_pagina
  direccion-traducida eq_ic tlb_max_size algoritmo ahora pid dir k t s p h e g c =
      (calcular_direccion_fisica-IsCoherente eq_ic tlb_max_size algoritmo (tabla_de s) tam_pagina
        ahora pid (pos dir) t c).0
      ∙ ap (λ m. direccion_cpu tam_pagina m (pos dir))
          (tabla-pagina s pid (dir / tam_pagina) k p e g)
      ∙ (direccion_fisica-cota tam_pagina k (suc k) dir h (omega arith)).0

  escribir-leer :
      (pid x : ℕ) (datos : List ℕ) (s : Estado a.B) (f : ℕ → ℕ)
      → escribir_memoria tam_pagina tam_memoria claves pid x datos s.memoria s.bytes ≡ hecho f
      → obtener_dato_memoria tam_pagina tam_memoria claves pid x (length datos) s.memoria f
        ≡ hecho (some datos)
      → (atender_cpu a elementos claves tam_pagina tam_memoria ajeno (escribir pid (pos x) datos) s
          ≡ hecho (dato_memoria (some (take 8 datos)), record s { bytes = f }))
        × (atender_cpu a elementos claves tam_pagina tam_memoria ajeno
              (solicitar_dato_memoria pid (pos x) (length datos))
              (record s { bytes = f })
            ≡ hecho (dato_memoria (some datos), record s { bytes = f }))
  unfolding atender_cpu escribir_en leer_en
  escribir-leer pid x datos s f w r = (rw w refl, rw r refl)

  -- What a process writes at a logical address it reads there, through the CPU and the memory: for
  -- pages of at least 1 byte, a logical address of 0 or more on a page of the process and pages
  -- for all the bytes behind it, frames of the process that are in the memory and each of one
  -- page, a list of the keys of its page table that leaves none out, and a cache coherent with the
  -- answers of the memory, the request to write at the address that the CPU computes is answered,
  -- and the request to read then answers the bytes.
  pub escribir-leer_logica :
      (eq_ic : String → String → Bool) (tlb_max_size : ℕ) (algoritmo : String) (ahora pid dir k : ℕ)
      (datos : List ℕ) (t : Tlb) (s : Estado a.B) (p : Proceso)
      → 1 ≤ tam_pagina
      → proceso_por_pid pid s.memoria.procesos ≡ some p
      → IsMapa tam_pagina tam_memoria p.tabla_de_paginas
      → AreClaves claves p.tabla_de_paginas
      → get (dir / tam_pagina) p.tabla_de_paginas ≡ some k
      → ((j : ℕ)
          → j * tam_pagina + (tam_pagina - dir % tam_pagina) < length datos
          → (m : ℕ) × (get (suc (dir / tam_pagina) + j) p.tabla_de_paginas ≡ some m))
      → IsCoherente (tabla_de s) t.entradas
      → let d =
          (calcular_direccion_fisica eq_ic tlb_max_size algoritmo
            (tabla_de s)
            tam_pagina
            ahora
            pid
            (pos dir)
            t).0 in
        (s' : Estado a.B) × (atender_cpu a elementos claves tam_pagina tam_memoria ajeno
            (escribir pid d datos)
            s
          ≡ hecho (dato_memoria (some (take 8 datos)), s'))
        × (atender_cpu a elementos claves tam_pagina tam_memoria ajeno
              (solicitar_dato_memoria pid d (length datos))
              s'
            ≡ hecho (dato_memoria (some datos), s'))
  escribir-leer_logica eq_ic tlb_max_size algoritmo ahora pid dir k datos t s p h e v c g hay co =
      let x = k * tam_pagina + dir % tam_pagina in
      let q = en_marco tam_pagina k dir h in
      let (f, w, r) =
        obtener-escribir claves tam_pagina tam_memoria pid x (dir / tam_pagina) datos s.memoria
          s.bytes p h e v c (g ∙ ap some (sym q.0))
          (λ j l. hay j (subst (λ o. j * tam_pagina + (tam_pagina - o) < length datos) q.1 l)) in
      let u = escribir-leer pid x datos s f w r in
      rw (direccion-traducida eq_ic tlb_max_size algoritmo ahora pid dir k t s p h e g co)
        (record s { bytes = f }, u.0, u.1)
