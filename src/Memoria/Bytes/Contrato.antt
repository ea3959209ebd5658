-- ===== src/Memoria/Bytes/Contrato.antt =====
-- memoria/src/memoria-utils/memoria.c: reading and writing for a process, as a whole.
use mathlib.Core.Path.{subst}
use tp_sistemas_operativos_c.Common.{
  ℕ, suc, ◌+◌, ◌-◌, ◌*◌, ◌/◌, ◌%◌, ◌≤◌, ◌<◌, ◌≡◌, ◌≢◌, refl, ap, sym, ◌∙◌, List, Option, none, some,
  length, arith, inl, inr, Option-cases, get, nat_eq, pos,
}
use tp_sistemas_operativos_c.Memoria.Procesos.{
  Proceso, Memoria, proceso_por_pid, buscar_direccion_fisica_en_tabla_de_paginas,
}
use tp_sistemas_operativos_c.Memoria.Bytes.{
  Acceso, hecho, sin_turnos, buscar_pagina_por_pid_y_marco, tras_pagina, escribir_memoria,
  obtener_dato_memoria,
}
use tp_sistemas_operativos_c.Memoria.Bytes.Recorrido.{
  TrasAcceso, IsFuera, escribir_desde-hecho, escribir_desde-fuera,
}
use tp_sistemas_operativos_c.Memoria.Bytes.Turnos.{
  Termina, Termina-bind, escribir_desde-Termina, leer_desde-Termina,
}
use tp_sistemas_operativos_c.Memoria.Bytes.Vuelta.{vuelta}
use tp_sistemas_operativos_c.Memoria.Bytes.Accesos.{
  IsMapa, AreClaves, buscar-esta, pagina-get, escribir_memoria-nada, escribir_memoria-sin_proceso,
  obtener-sin_proceso, marcos-tabla, escribir_memoria-desde, obtener-desde,
}

division : (tam dir : ℕ) → 1 ≤ tam → (dir % tam < tam) × (dir / tam * tam + dir % tam ≡ dir)
division tam dir h = ground arith

-- The search by frame finds the page that has it.
pagina-buscada :
    (claves : List (ℕ × ℕ) → List ℕ) (tam_pagina tam_memoria : ℕ) (p : Proceso) (pagina marco : ℕ)
    → IsMapa tam_pagina tam_memoria p.tabla_de_paginas
    → AreClaves claves p.tabla_de_paginas
    → get pagina p.tabla_de_paginas ≡ some marco
    → buscar_pagina_por_pid_y_marco claves p marco ≡ some pagina
unfolding buscar_pagina_por_pid_y_marco
pagina-buscada claves tam_pagina tam_memoria p pagina marco v c g =
    buscar-esta p.tabla_de_paginas marco pagina g (λ i h. v.distintas i pagina marco h g)
      (claves p.tabla_de_paginas) none (c pagina marco g)

hecho-zip :
    (P : (ℕ → ℕ) → Type 0) (r : Acceso (ℕ → ℕ)) (f' : ℕ → ℕ) → r ≡ hecho f' → TrasAcceso P r → P f'
hecho-zip P r f' e h = subst (TrasAcceso P) e h

module _ {B : Type 0} (claves : List (ℕ × ℕ) → List ℕ) (tam_pagina tam_memoria : ℕ) where
  -- What a process writes it reads back: for pages of at least 1 byte, where the keys of its page table
  -- are all listed, its frames are in the memory and each of one page, the address is in the frame of
  -- one of its pages and the pages after it cover the bytes, the write returns, and a read of as many
  -- bytes at the address then returns them.
  pub obtener-escribir :
      (pid dir pagina : ℕ) (datos : List ℕ) (m : Memoria B) (f : ℕ → ℕ) (p : Proceso)
      → 1 ≤ tam_pagina
      → proceso_por_pid pid m.procesos ≡ some p
      → IsMapa tam_pagina tam_memoria p.tabla_de_paginas
      → AreClaves claves p.tabla_de_paginas
      → get pagina p.tabla_de_paginas ≡ some (dir / tam_pagina)
      → ((j : ℕ)
          → j * tam_pagina + (tam_pagina - dir % tam_pagina) < length datos
          → (k : ℕ) × (get (suc pagina + j) p.tabla_de_paginas ≡ some k))
      → (f' : ℕ → ℕ) × (escribir_memoria tam_pagina tam_memoria claves pid dir datos m f ≡ hecho f')
        × (obtener_dato_memoria tam_pagina tam_memoria claves pid dir (length datos) m f'
            ≡ hecho (some datos))
  obtener-escribir pid dir pagina datos m f p t e v c g hay =
      let mk = λ (n : ℕ). buscar_direccion_fisica_en_tabla_de_paginas pid (pos n) m in
      let tabla : (i : ℕ) → mk i ≡ get i p.tabla_de_paginas =
        λ i. marcos-tabla claves tam_pagina tam_memoria pid i m p e in
      let b = pagina-buscada claves tam_pagina tam_memoria p pagina (dir / tam_pagina) v c g in
      let o = (division tam_pagina dir t).0 in
      let w =
        escribir_desde-hecho tam_pagina tam_memoria mk (length datos) (dir / tam_pagina)
          (dir % tam_pagina) (suc pagina) datos f (omega arith) o
          (v.dentro pagina (dir / tam_pagina) g) (λ i k l h. v.dentro i k (sym (tabla i) ∙ h)) in
      let q =
        vuelta tam_pagina tam_memoria mk (length datos) (dir / tam_pagina) (dir % tam_pagina)
          (suc pagina) datos f o (λ j l. let (k, h) = hay j l in (k, tabla (suc pagina + j) ∙ h))
          (λ i j k l le lt h1 h2 x. absurd (
            omega (
              arith,
              lt,
              v.distintas i j k (sym (tabla i) ∙ h1) (sym (tabla j) ∙ h2 ∙ ap some (sym x)),
            )))
          (λ i k le h x.
            absurd
              (omega (arith, le, v.distintas pagina i k (g ∙ ap some x) (sym (tabla i) ∙ h)))) in
      let r = hecho-zip _ _ w.0 w.1 q in
      (
        w.0,
        escribir_memoria-desde claves tam_pagina tam_memoria pid dir pagina datos m f p e b ∙ w.1,
        obtener-desde claves tam_pagina tam_memoria pid dir (length datos) m w.0 p e
            ∙ rw b (rw r refl),
      )

  -- A write for a process whose frames are in the memory and each of one page returns, for pages of at
  -- least 1 byte, and leaves every byte that is in no frame of the process.
  pub escribir_memoria-aislada :
      (pid dir : ℕ) (datos : List ℕ) (m : Memoria B) (f : ℕ → ℕ) (p : Proceso)
      → 1 ≤ tam_pagina
      → proceso_por_pid pid m.procesos ≡ some p
      → IsMapa tam_pagina tam_memoria p.tabla_de_paginas
      → (f' : ℕ → ℕ) × (escribir_memoria tam_pagina tam_memoria claves pid dir datos m f ≡ hecho f')
        × ((a : ℕ)
            → ((i k : ℕ) → get i p.tabla_de_paginas ≡ some k → IsFuera tam_pagina k a)
            → f' a ≡ f a)
  escribir_memoria-aislada pid dir datos m f p t e v =
      let marco = dir / tam_pagina in
      elim (Option-cases (buscar_pagina_por_pid_y_marco claves p marco)) [
        | inl x ↦ (
          f,
          escribir_memoria-nada claves tam_pagina tam_memoria pid dir datos m f p e x,
          λ a h. refl,
        )
        | inr (pagina, b) ↦
            let mk : ℕ → Option ℕ =
              λ n. buscar_direccion_fisica_en_tabla_de_paginas pid (pos n) m in
            let tabla : (i : ℕ) → mk i ≡ get i p.tabla_de_paginas =
              λ i. marcos-tabla claves tam_pagina tam_memoria pid i m p e in
            let g = pagina-get claves p marco pagina b in
            let o = (division tam_pagina dir t).0 in
            let w =
              escribir_desde-hecho tam_pagina tam_memoria mk (length datos) marco (dir % tam_pagina)
                (suc pagina) datos f (omega arith) o (v.dentro pagina marco g)
                (λ i k l h. v.dentro i k (sym (tabla i) ∙ h)) in
            (
              w.0,
              escribir_memoria-desde claves tam_pagina tam_memoria pid dir pagina datos m f p e b
                  ∙ w.1,
              λ a h.
                  hecho-zip (λ f'. f' a ≡ f a) _ w.0 w.1
                    (escribir_desde-fuera tam_pagina tam_memoria mk (length datos) marco
                      (dir % tam_pagina) (suc pagina) datos f a o (h pagina marco g)
                      (λ i k l q. h i k (sym (tabla i) ∙ q))),
            )
      ]

  -- With pages of at least 1 byte the loops of a write and of a read, for any process and any
  -- address of 0 or more, end within as many turns as there are bytes.
  pub accesos-terminan :
      (pid dir n : ℕ) (datos : List ℕ) (m : Memoria B) (f : ℕ → ℕ)
      → 1 ≤ tam_pagina
      → (escribir_memoria tam_pagina tam_memoria claves pid dir datos m f ≢ sin_turnos)
        × (obtener_dato_memoria tam_pagina tam_memoria claves pid dir n m f ≢ sin_turnos)
  accesos-terminan pid dir n datos m f t =
      let o = (division tam_pagina dir t).0 in
      let marco = dir / tam_pagina in
      let mk : ℕ → Option ℕ = λ n. buscar_direccion_fisica_en_tabla_de_paginas pid (pos n) m in
      elim (Option-cases (proceso_por_pid pid m.procesos)) [
        | inl e ↦ (
          λ h.
              let z =
                sym (escribir_memoria-sin_proceso claves tam_pagina tam_memoria pid dir datos m f e)
                ∙ h in
              cc,
          λ h.
              let z = sym (obtener-sin_proceso claves tam_pagina tam_memoria pid dir n m f e) ∙ h in
              cc,
        )
        | inr (p, e) ↦ (
          elim (Option-cases (buscar_pagina_por_pid_y_marco claves p marco)) [
            | inl x ↦ λ h.
                let z =
                  sym (escribir_memoria-nada claves tam_pagina tam_memoria pid dir datos m f p e x)
                  ∙ h in
                cc
            | inr (pagina, b) ↦ λ h.
                subst Termina
                  (sym (
                      escribir_memoria-desde claves tam_pagina tam_memoria pid dir pagina datos m f
                        p e b)
                    ∙ h)
                  (escribir_desde-Termina tam_pagina tam_memoria mk (length datos) marco
                    (dir % tam_pagina) (suc pagina) datos f (omega arith) o)
          ],
          λ h.
              subst Termina
                (sym (obtener-desde claves tam_pagina tam_memoria pid dir n m f p e) ∙ h)
                (Termina-bind _ (λ bs. some bs)
                  (leer_desde-Termina tam_pagina tam_memoria mk n marco (dir % tam_pagina)
                    (tras_pagina (buscar_pagina_por_pid_y_marco claves p marco)) n f (omega arith)
                    o)),
        )
      ]
