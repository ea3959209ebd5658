-- ===== src/Cpu/Instrucciones/Vueltas.antt =====
-- cpu/src/main.c: the loop that runs a process, from when it is received to when it is given back.
use mathlib.Core.Path.{subst}
use tp_sistemas_operativos_c.Common.{
  ℕ, zero, suc, ◌+◌, ◌≡◌, ◌≢◌, refl, ap, ◌∙◌, inl, inr, Bool, true, false, String, List, ℤ,
  Option-cases, arith,
}
use tp_sistemas_operativos_c.Utils.Pcb.{Pcb}
use tp_sistemas_operativos_c.Cpu.Instrucciones.{Cpu, Respuestas}
use tp_sistemas_operativos_c.Cpu.Instrucciones.Ciclo.{
  InstruccionCpu, Turno, sin_instruccion, ejecutado, fallo, turno, turno_de, ejecutar_instruccion,
  dividir_instruccion, en_curso, ciclo, tras_turno,
}
use tp_sistemas_operativos_c.Cpu.Instrucciones.Turno.{ejecutar_instruccion-IsEjecutado}
use tp_sistemas_operativos_c.Cpu.Instrucciones.Envios.{
  Envia, IsBien, Envia-nada, ejecutado-Envia, IsCerrado, cerrar, antes-IsCerrado, tras_turno-true,
  tras_turno-sigue,
}

module _ (eq_ic : String → String → Bool) (atoi : String → ℤ) (split : String → List String)
    (tlb_max_size : ℕ) (algoritmo : String) (tam_pagina : ℕ) where
  ejecutar-IsBien :
      (r : Respuestas) (i : InstruccionCpu) (pcb : Pcb) (c c0 : Cpu)
      → c.enviados ≡ c0.enviados
      → IsBien pcb c0
          (turno_de (ejecutar_instruccion eq_ic atoi tlb_max_size algoritmo tam_pagina r i pcb c))
  ejecutar-IsBien r i pcb c c0 q =
      elim (Option-cases
        (ejecutar_instruccion eq_ic atoi tlb_max_size algoritmo tam_pagina r i pcb c)) [
          | inl e ↦ rw e tt
          | inr ((pcb', c'), e) ↦
              let v =
                ejecutar_instruccion-IsEjecutado eq_ic atoi tlb_max_size algoritmo tam_pagina r i
                  pcb pcb' c c' e in
              rw e (
                ap (λ (p : Pcb). p.pid) v.bloque.1,
                ap (λ (p : Pcb). p.cpu_registro) v.bloque.1,
                subst (λ es. Envia pcb.pid es c'.enviados) q
                    (ejecutado-Envia pcb pcb' c c' v.envios),
              )
        ]

  turno-IsBien :
      (r : Respuestas) (pcb : Pcb) (c : Cpu)
      → IsBien pcb c (turno eq_ic atoi split tlb_max_size algoritmo tam_pagina r pcb c)
  unfolding turno
  turno-IsBien r pcb c = elim (Option-cases (r.instruccion pcb.pid pcb.program_counter)) [
    | inl e ↦ rw (turno, e) (Envia-nada pcb.pid c.enviados, refl)
    | inr (linea, e) ↦ elim (Option-cases (dividir_instruccion split linea)) [
      | inl x ↦ rw (turno, e) (rw x tt)
      | inr (i, x) ↦
          rw (turno, e)
            (rw x (ejecutar-IsBien r i pcb (record c { registros = pcb.cpu_registro }) c refl))
    ]
  ]

  -- However the loop gives a process back, it is the process that it was given, with the registers of
  -- the CPU in its block; what was sent is first packets of that process that do not end a run, and
  -- then one, with that block: TERMINO_EJECUCION or INTERRUMPIO_PROCESO.
  pub ciclo-IsCerrado :
      (turnos : ℕ) (respuestas : ℕ → Respuestas) (interrupciones : ℕ → Bool) (n : ℕ) (pcb : Pcb)
      (c : Cpu)
      → IsCerrado pcb c (
          ciclo eq_ic atoi split tlb_max_size algoritmo tam_pagina turnos respuestas interrupciones
            n pcb c)
  unfolding ciclo
  ciclo-IsCerrado zero respuestas interrupciones n pcb c = tt
  ciclo-IsCerrado (suc turnos) respuestas interrupciones n pcb c =
      paso (turno eq_ic atoi split tlb_max_size algoritmo tam_pagina (respuestas n) pcb c)
        (interrupciones n) (turno-IsBien (respuestas n) pcb c)
        (λ pcb' c'. ciclo-IsCerrado turnos respuestas interrupciones (suc n) pcb' c')
    where
      paso :
          (t : Turno) (b : Bool)
          → IsBien pcb c t
          → ((pcb' : Pcb) (c' : Cpu)
              → IsCerrado pcb' c' (
                  ciclo eq_ic atoi split tlb_max_size algoritmo tam_pagina turnos respuestas
                    interrupciones
                    (suc n)
                    pcb'
                    c'))
          → IsCerrado pcb c (
              tras_turno t b pcb (
                ciclo eq_ic atoi split tlb_max_size algoritmo tam_pagina turnos respuestas
                  interrupciones
                  (suc n)))
      paso fallo b h ih = tt
      paso (sin_instruccion c') b h ih = (refl, h.1, cerrar pcb.pid c.enviados c'.enviados _ h.0)
      paso (ejecutado pcb' c') true h ih = (h.0, h.1, cerrar pcb.pid c.enviados c'.enviados _ h.2)
      paso (ejecutado pcb' c') false h ih = antes-IsCerrado pcb pcb' c c' _ h.0 h.2 (ih pcb' c')

  -- With an interruption in the turn `k` from now, the loop has given the process back, or the CPU has
  -- stopped on a null pointer, within `k + 1` turns.
  pub ciclo-interrupcion :
      (k : ℕ) (respuestas : ℕ → Respuestas) (interrupciones : ℕ → Bool) (n : ℕ) (pcb : Pcb)
      (c : Cpu)
      → interrupciones (n + k) ≡ true
      → ciclo eq_ic atoi split tlb_max_size algoritmo tam_pagina
          (suc k)
          respuestas
          interrupciones
          n
          pcb
          c
        ≢ en_curso
  unfolding ciclo
  ciclo-interrupcion zero respuestas interrupciones n pcb c h =
      let e : interrupciones n ≡ true = ap interrupciones (omega arith) ∙ h in
      rw (ciclo, e)
        (tras_turno-true
          (turno eq_ic atoi split tlb_max_size algoritmo tam_pagina (respuestas n) pcb c) pcb _)
  ciclo-interrupcion (suc k) respuestas interrupciones n pcb c h =
      tras_turno-sigue
        (turno eq_ic atoi split tlb_max_size algoritmo tam_pagina (respuestas n) pcb c)
        (interrupciones n) pcb _
        (λ pcb' c'.
          ciclo-interrupcion k respuestas interrupciones (suc n) pcb' c'
            (ap interrupciones (omega arith) ∙ h))
