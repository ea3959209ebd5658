-- ===== src/Cpu/Instrucciones/Ciclo.antt =====
-- cpu/src: cicloInstruccion.c and the loop of main.c that runs a process. The text functions of
-- so-commons and `atoi` are arguments. `interrupciones n` is what the loop reads of `interrupcion` at
-- the end of its turn `n`; `respuestas n` is what the memory answers in that turn.
use tp_sistemas_operativos_c.Common.{
  ℕ, zero, suc, Bool, true, false, String, List, Option, none, some, if◌then◌else◌, ℤ,
}
use tp_sistemas_operativos_c.Utils.Pcb.{Pcb, Registros}
use tp_sistemas_operativos_c.Kernel.Espera.{termino_ejecucion, interrumpio_proceso}
use tp_sistemas_operativos_c.Cpu.Registros.{
  pc_mas_1, instruccion_set, instruccion_sum, instruccion_sub, instruccion_jnz,
}
use tp_sistemas_operativos_c.Cpu.Instrucciones.{
  Cpu, Respuestas, enviar_pcb_kernel, uno, instruccion_mov_in, instruccion_mov_out,
  instruccion_resize, instruccion_copy_string, instruccion_io_gen_sleep, instruccion_wait,
  instruccion_signal, instruccion_io_stdin_read, instruccion_io_stdout_write,
  instruccion_io_fs_create, instruccion_io_fs_delete, instruccion_io_fs_truncate,
  instruccion_io_fs_write, instruccion_io_fs_read, instruccion_exit,
}

-- `instruccionCPU_t`
pub record InstruccionCpu : Type 0 where
  pub instruccion : String
  pub parametros : List String

-- A line with no word has no instruction to compare.
unfoldable pub dividir_instruccion : (String → List String) → String → Option InstruccionCpu
dividir_instruccion split linea =
    uno (split linea) (λ inst params. some (record { instruccion = inst; parametros = params }))

module _ (eq_ic : String → String → Bool) (atoi : String → ℤ) (tlb_max_size : ℕ)
    (algoritmo : String) (tam_pagina : ℕ) where
  -- SET, and where the block goes on.
  unfoldable pub ejecutar_set : String → ℤ → Pcb → Cpu → Pcb × Cpu
  unfolding instruccion_set
  ejecutar_set registro valor pcb c =
      let c' = record c { registros = instruccion_set eq_ic registro valor c.registros } in
      (
        if eq_ic registro "PC"
            then record pcb { program_counter = c'.registros.pc }
            else pc_mas_1 pcb,
        c',
      )

  abbrev pub con_registros : Pcb × Registros → Cpu → Pcb × Cpu
  con_registros s c = (s.0, record c { registros = s.1 })

  -- The calls by name, each with the parameters that it reads.
  unfoldable pub elegir : Respuestas → String → List String → Pcb → Cpu → Option (Pcb × Cpu)
  unfolding ejecutar_set instruccion_sum instruccion_sub instruccion_jnz instruccion_mov_in
      instruccion_mov_out instruccion_resize instruccion_copy_string instruccion_io_gen_sleep
      instruccion_wait instruccion_signal instruccion_io_stdin_read instruccion_io_stdout_write
      instruccion_io_fs_create instruccion_io_fs_delete instruccion_io_fs_truncate
      instruccion_io_fs_write instruccion_io_fs_read instruccion_exit
  elegir r inst ps pcb c =
      if eq_ic inst "SET"
      then uno ps (λ a ps. uno ps (λ b ps. some (ejecutar_set a (atoi b) pcb c)))
      else if eq_ic inst "SUM"
      then uno ps (λ a ps.
        uno ps (λ b ps. some (con_registros (instruccion_sum eq_ic pcb a b c.registros) c)))
      else if eq_ic inst "SUB"
      then uno ps (λ a ps.
        uno ps (λ b ps. some (con_registros (instruccion_sub eq_ic pcb a b c.registros) c)))
      else if eq_ic inst "JNZ"
      then uno ps
          (λ a ps. uno ps (λ b ps. some (instruccion_jnz eq_ic pcb a (atoi b) c.registros, c)))
      else if eq_ic inst "IO_GEN_SLEEP"
      then uno ps (λ a ps. uno ps (λ b ps. some (instruccion_io_gen_sleep a (atoi b) pcb c)))
      else if eq_ic inst "MOV_IN"
      then uno ps (λ a ps.
        uno ps
          (λ b ps. some (instruccion_mov_in eq_ic tlb_max_size algoritmo tam_pagina r a b pcb c)))
      else if eq_ic inst "MOV_OUT"
      then uno ps (λ a ps.
        uno ps
          (λ b ps. some (instruccion_mov_out eq_ic tlb_max_size algoritmo tam_pagina r a b pcb c)))
      else if eq_ic inst "RESIZE"
      then uno ps (λ a ps. some (instruccion_resize r (atoi a) pcb c))
      else if eq_ic inst "COPY_STRING"
      then uno ps
          (λ a ps. instruccion_copy_string eq_ic tlb_max_size algoritmo tam_pagina r (atoi a) pcb c)
      else if eq_ic inst "WAIT"
      then uno ps (λ a ps. some (instruccion_wait a pcb c))
      else if eq_ic inst "SIGNAL"
      then uno ps (λ a ps. some (instruccion_signal a pcb c))
      else if eq_ic inst "IO_STDIN_READ"
      then uno ps (λ a ps. uno ps (λ b ps. uno ps (λ d ps.
        some (instruccion_io_stdin_read eq_ic tlb_max_size algoritmo tam_pagina r a b d pcb c))))
      else if eq_ic inst "IO_STDOUT_WRITE"
      then uno ps (λ a ps. uno ps (λ b ps. uno ps (λ d ps.
        some (instruccion_io_stdout_write eq_ic tlb_max_size algoritmo tam_pagina r a b d pcb c))))
      else if eq_ic inst "IO_FS_CREATE"
      then uno ps (λ a ps. uno ps (λ b ps. some (instruccion_io_fs_create a b pcb c)))
      else if eq_ic inst "IO_FS_DELETE"
      then uno ps (λ a ps. uno ps (λ b ps. some (instruccion_io_fs_delete a b pcb c)))
      else if eq_ic inst "IO_FS_TRUNCATE"
      then uno ps (λ a ps. uno ps (λ b ps. uno ps (λ d ps.
        some (instruccion_io_fs_truncate eq_ic tlb_max_size algoritmo tam_pagina a b d pcb c))))
      else if eq_ic inst "IO_FS_WRITE"
      then uno ps (λ a ps. uno ps (λ b ps. uno ps (λ f ps. uno ps (λ d ps. uno ps (λ e ps.
        some
          (instruccion_io_fs_write eq_ic tlb_max_size algoritmo tam_pagina r a b f d e pcb c))))))
      else if eq_ic inst "IO_FS_READ"
      then uno ps (λ a ps. uno ps (λ b ps. uno ps (λ f ps. uno ps (λ d ps. uno ps (λ e ps.
        some (instruccion_io_fs_read eq_ic tlb_max_size algoritmo tam_pagina r a b f d e pcb c))))))
      else if eq_ic inst "EXIT"
      then some (instruccion_exit pcb c)
      else some (pcb, c)

  -- The registers are copied to the block after the instruction.
  abbrev pub guardar_registros : Pcb × Cpu → Pcb × Cpu
  guardar_registros s = (record (s.0) { cpu_registro = s.1.registros }, s.1)

  abbrev pub tras_ejecutar : Option (Pcb × Cpu) → Option (Pcb × Cpu)
  tras_ejecutar none = none
  tras_ejecutar (some s) = some (guardar_registros s)

  unfoldable pub ejecutar_instruccion : Respuestas → InstruccionCpu → Pcb → Cpu → Option (Pcb × Cpu)
  unfolding elegir
  ejecutar_instruccion r i pcb c = tras_ejecutar (elegir r i.instruccion i.parametros pcb c)

-- How a turn ends: the program has no more instructions, it was executed, or the CPU reads through a
-- null pointer.
pub data Turno : Type 0 where
  sin_instruccion : Cpu → Turno
  ejecutado : Pcb → Cpu → Turno
  fallo : Turno

abbrev pub turno_de : Option (Pcb × Cpu) → Turno
turno_de none = fallo
turno_de (some s) = ejecutado s.0 s.1

-- How the loop ends; `en_curso` is a run that has not ended after the turns that it was given.
pub data FinCiclo : Type 0 where
  terminado interrumpido : Pcb → Cpu → FinCiclo
  colgado en_curso : FinCiclo

-- The end of a turn: the process is given back, or goes on if there is no interruption.
abbrev pub tras_turno : Turno → Bool → Pcb → (Pcb → Cpu → FinCiclo) → FinCiclo
tras_turno fallo interrupcion pcb sigue = colgado
tras_turno (sin_instruccion c) interrupcion pcb sigue =
    terminado pcb (enviar_pcb_kernel termino_ejecucion pcb c)
tras_turno (ejecutado pcb' c) true pcb sigue =
    interrumpido pcb' (enviar_pcb_kernel interrumpio_proceso pcb' c)
tras_turno (ejecutado pcb' c) false pcb sigue = sigue pcb' c

module _ (eq_ic : String → String → Bool) (atoi : String → ℤ) (split : String → List String)
    (tlb_max_size : ℕ) (algoritmo : String) (tam_pagina : ℕ) where
  abbrev pub ejecutar_linea : Respuestas → Option InstruccionCpu → Pcb → Cpu → Turno
  ejecutar_linea r none pcb c = fallo
  ejecutar_linea r (some i) pcb c =
      turno_de (ejecutar_instruccion eq_ic atoi tlb_max_size algoritmo tam_pagina r i pcb c)

  -- The answer of the memory to PC_A_INSTRUCCION decides.
  abbrev pub turno_con : Respuestas → Option String → Pcb → Cpu → Turno
  turno_con r none pcb c = sin_instruccion c
  turno_con r (some linea) pcb c = ejecutar_linea r (dividir_instruccion split linea) pcb c

  unfoldable pub turno : Respuestas → Pcb → Cpu → Turno
  unfolding ejecutar_instruccion dividir_instruccion
  turno r pcb c =
      turno_con r (r.instruccion pcb.pid pcb.program_counter) pcb
        (record c { registros = pcb.cpu_registro })

  -- The loop from its turn `n` on.
  unfoldable pub ciclo : ℕ → (ℕ → Respuestas) → (ℕ → Bool) → ℕ → Pcb → Cpu → FinCiclo
  unfolding turno
  ciclo zero respuestas interrupciones n pcb c = en_curso
  ciclo (suc turnos) respuestas interrupciones n pcb c =
      tras_turno (turno (respuestas n) pcb c) (interrupciones n) pcb
        (ciclo turnos respuestas interrupciones (suc n))
