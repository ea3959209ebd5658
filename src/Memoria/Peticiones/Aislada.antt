-- ===== src/Memoria/Peticiones/Aislada.antt =====
-- memoria/src/memoria-utils/memoria.c: a write to any address, also one before the memory.
use tp_sistemas_operativos_c.Common.{
  ℕ, suc, ◌≤◌, ◌<◌, ◌≡◌, ◌≢◌, refl, List, [], ◌∷◌, some, ltb, arith, ℤ, pos, negsuc, Bool-cases,
  Option-cases, inl, inr, get, nat_eq,
}
use tp_sistemas_operativos_c.Memoria.Marcos.{Bitarray}
use tp_sistemas_operativos_c.Memoria.Procesos.{Proceso, proceso_por_pid}
use tp_sistemas_operativos_c.Memoria.Bytes.{hecho, buscar_pagina_por_pid_y_marco}
use tp_sistemas_operativos_c.Memoria.Bytes.Recorrido.{IsFuera}
use tp_sistemas_operativos_c.Memoria.Bytes.Accesos.{IsMapa, pagina-get}
use tp_sistemas_operativos_c.Memoria.Bytes.Contrato.{escribir_memoria-aislada}
use tp_sistemas_operativos_c.Memoria.Peticiones.{Estado, escribir_en, escribir_antes}

-- C's division gives frame 0 to an address less than a page before the memory: then the process does
-- not have that frame.
abbrev pub Alejada : ℕ → List (ℕ × ℕ) → ℤ → Type 0
Alejada tam_pagina t (pos n) = Unit
Alejada tam_pagina t (negsuc n) = suc n < tam_pagina → (i : ℕ) → get i t ≢ some 0

module _ (a : Bitarray) (elementos claves : List (ℕ × ℕ) → List ℕ)
    (tam_pagina tam_memoria : ℕ) where
  antes :
      (pid n : ℕ) (s : Estado a.B) (p : Proceso)
      → proceso_por_pid pid s.memoria.procesos ≡ some p
      → Alejada tam_pagina p.tabla_de_paginas (negsuc n)
      → escribir_antes a elementos claves tam_pagina tam_memoria pid (suc n) s.memoria s.bytes
        ≡ hecho s.bytes
  unfolding escribir_antes
  antes pid n s p e v = elim (Bool-cases (ltb (suc n) tam_pagina)) [
    | inr x ↦ rw (escribir_antes, x) refl
    | inl x ↦ elim (Option-cases (buscar_pagina_por_pid_y_marco claves p 0)) [
      | inl y ↦ rw (escribir_antes, x, e, y) refl
      | inr (i, y) ↦ absurd (v (ground arith) i (pagina-get claves p 0 i y))
    ]
  ]

  -- For pages of at least 1 byte, a write for a process whose frames are in the memory and each of
  -- one page, at any address, where one less than a page before the memory is of a process without
  -- frame 0, returns, and leaves every byte that is in no frame of the process.
  pub escribir_en-aislada :
      (pid : ℕ) (dir : ℤ) (datos : List ℕ) (s : Estado a.B) (p : Proceso)
      → 1 ≤ tam_pagina
      → proceso_por_pid pid s.memoria.procesos ≡ some p
      → IsMapa tam_pagina tam_memoria p.tabla_de_paginas
      → Alejada tam_pagina p.tabla_de_paginas dir
      → (f : ℕ → ℕ) × (escribir_en a elementos claves tam_pagina tam_memoria pid dir datos s
          ≡ hecho f)
        × ((x : ℕ)
            → ((i k : ℕ) → get i p.tabla_de_paginas ≡ some k → IsFuera tam_pagina k x)
            → f x ≡ s.bytes x)
  unfolding escribir_en
  escribir_en-aislada pid (pos n) datos s p h e v w =
      escribir_memoria-aislada claves tam_pagina tam_memoria pid n datos s.memoria s.bytes p h e v
  escribir_en-aislada pid (negsuc n) [] s p h e v w = (s.bytes, refl, λ x q. refl)
  escribir_en-aislada pid (negsuc n) (b ∷ bs) s p h e v w =
      (s.bytes, antes pid n s p e w, λ x q. refl)
