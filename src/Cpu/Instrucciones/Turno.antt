-- ===== src/Cpu/Instrucciones/Turno.antt =====
-- cpu/src/cpu-utils/cicloInstruccion.c: the instructions by name, and what each does to the block of
-- its process and sends.
use mathlib.Core.Path.{subst}
use tp_sistemas_operativos_c.Common.{
  ℕ, ◌≡◌, refl, ap, inl, inr, Bool, String, List, Option, none, some, ℤ, negsuc, eqb_ℤ,
}
use tp_sistemas_operativos_c.Utils.Pcb.{Pcb}
use tp_sistemas_operativos_c.Cpu.Registros.{instruccion_sum, instruccion_sub, instruccion_jnz}
use tp_sistemas_operativos_c.Cpu.Instrucciones.{
  Cpu, Respuestas, instruccion_mov_in, instruccion_mov_out, instruccion_copy_string,
  instruccion_io_gen_sleep, instruccion_wait, instruccion_signal, instruccion_io_stdin_read,
  instruccion_io_stdout_write, instruccion_io_fs_create, instruccion_io_fs_delete,
  instruccion_io_fs_truncate, instruccion_io_fs_write, instruccion_io_fs_read, instruccion_exit,
  traducir, valor,
}
use tp_sistemas_operativos_c.Cpu.Instrucciones.Ciclo.{
  elegir, ejecutar_set, ejecutar_instruccion, InstruccionCpu, tras_ejecutar,
}
use tp_sistemas_operativos_c.Cpu.Instrucciones.Efecto.{
  bloque_de, IsTurno, IsBueno, bueno, si, uno-IsBueno, resize-IsTurno, copiar_dato-IsBueno,
  IsEjecutado, Ejecutado,
}

module _ (eq_ic : String → String → Bool) (atoi : String → ℤ) (tlb_max_size : ℕ)
    (algoritmo : String) (tam_pagina : ℕ) where
  set-IsTurno :
      (registro : String) (v : ℤ) (pcb : Pcb) (c : Cpu)
      → IsTurno pcb c (ejecutar_set eq_ic atoi tlb_max_size algoritmo tam_pagina registro v pcb c)
  unfolding ejecutar_set
  set-IsTurno registro v pcb c = record {
    bloque =
        si (λ p. (n : ℕ) × (p ≡ record pcb { program_counter = n })) (eq_ic registro "PC") _ _
          (_, refl) (_, refl);
    envios = inl refl;
  }

  mov_out-IsTurno :
      (r : Respuestas) (a b : String) (pcb : Pcb) (c : Cpu)
      → IsTurno pcb c (instruccion_mov_out eq_ic tlb_max_size algoritmo tam_pagina r a b pcb c)
  unfolding instruccion_mov_out
  mov_out-IsTurno r a b pcb c =
      si (IsTurno pcb c)
        (eqb_ℤ
          (traducir eq_ic tlb_max_size algoritmo tam_pagina r r.ahora pcb.pid
            (valor eq_ic tlb_max_size algoritmo tam_pagina a c) c).0
          (negsuc 0))
        _ _ (record { bloque = (_, refl); envios = inl refl })
        (record { bloque = (_, refl); envios = inr (_, refl, refl) })

  copy_string-IsBueno :
      (r : Respuestas) (tam : ℤ) (pcb : Pcb) (c : Cpu)
      → IsBueno pcb c (instruccion_copy_string eq_ic tlb_max_size algoritmo tam_pagina r tam pcb c)
  unfolding instruccion_copy_string
  copy_string-IsBueno r tam pcb c = copiar_dato-IsBueno r tam _ _ pcb _ c refl

  elegir-IsBueno :
      (r : Respuestas) (inst : String) (ps : List String) (pcb : Pcb) (c : Cpu)
      → IsBueno pcb c (elegir eq_ic atoi tlb_max_size algoritmo tam_pagina r inst ps pcb c)
  unfolding elegir instruccion_sum instruccion_sub instruccion_jnz instruccion_mov_in
      instruccion_io_gen_sleep instruccion_wait instruccion_signal instruccion_io_stdin_read
      instruccion_io_stdout_write instruccion_io_fs_create instruccion_io_fs_delete
      instruccion_io_fs_truncate instruccion_io_fs_write instruccion_io_fs_read instruccion_exit
      bloque_de
  elegir-IsBueno r inst ps pcb c =
      si (IsBueno pcb c) (eq_ic inst "SET") _ _
        (uno-IsBueno ps _ pcb c
          (λ a ps. uno-IsBueno ps _ pcb c (λ b ps. bueno (set-IsTurno a (atoi b) pcb c))))
        (si (IsBueno pcb c) (eq_ic inst "SUM") _ _
          (uno-IsBueno ps _ pcb c (λ a ps.
            uno-IsBueno ps _ pcb c
              (λ b ps. bueno (record { bloque = (_, refl); envios = inl refl }))))
          (si (IsBueno pcb c) (eq_ic inst "SUB") _ _
            (uno-IsBueno ps _ pcb c (λ a ps.
              uno-IsBueno ps _ pcb c
                (λ b ps. bueno (record { bloque = (_, refl); envios = inl refl }))))
            (si (IsBueno pcb c) (eq_ic inst "JNZ") _ _
              (uno-IsBueno ps _ pcb c (λ a ps.
                uno-IsBueno ps _ pcb c
                  (λ b ps. bueno (record { bloque = (_, refl); envios = inl refl }))))
              (si (IsBueno pcb c) (eq_ic inst "IO_GEN_SLEEP") _ _
                (uno-IsBueno ps _ pcb c (λ a ps.
                  uno-IsBueno ps _ pcb c
                    (λ b ps. bueno (record { bloque = (_, refl); envios = inr (_, refl, refl) }))))
                (si (IsBueno pcb c) (eq_ic inst "MOV_IN") _ _
                  (uno-IsBueno ps _ pcb c (λ a ps.
                    uno-IsBueno ps _ pcb c
                      (λ b ps. bueno (record { bloque = (_, refl); envios = inl refl }))))
                  (si (IsBueno pcb c) (eq_ic inst "MOV_OUT") _ _
                    (uno-IsBueno ps _ pcb c (λ a ps.
                      uno-IsBueno ps _ pcb c (λ b ps. bueno (mov_out-IsTurno r a b pcb c))))
                    (si (IsBueno pcb c) (eq_ic inst "RESIZE") _ _
                      (uno-IsBueno ps _ pcb c (λ a ps. bueno (resize-IsTurno r (atoi a) pcb c)))
                      (si (IsBueno pcb c) (eq_ic inst "COPY_STRING") _ _
                        (uno-IsBueno ps _ pcb c (λ a ps. copy_string-IsBueno r (atoi a) pcb c))
                        (si (IsBueno pcb c) (eq_ic inst "WAIT") _ _
                          (uno-IsBueno ps _ pcb c (λ a ps.
                            bueno (record { bloque = (_, refl); envios = inr (_, refl, refl) })))
                          (si (IsBueno pcb c) (eq_ic inst "SIGNAL") _ _
                            (uno-IsBueno ps _ pcb c (λ a ps.
                              bueno (record { bloque = (_, refl); envios = inr (_, refl, refl) })))
                            (si (IsBueno pcb c) (eq_ic inst "IO_STDIN_READ") _ _
                              (uno-IsBueno ps _ pcb c (λ a ps. uno-IsBueno ps _ pcb c (λ b ps.
                                uno-IsBueno ps _ pcb c (λ d ps.
                                  bueno (record {
                                    bloque = (_, refl);
                                    envios = inr (_, refl, refl);
                                  })))))
                              (si (IsBueno pcb c) (eq_ic inst "IO_STDOUT_WRITE") _ _
                                (uno-IsBueno ps _ pcb c (λ a ps. uno-IsBueno ps _ pcb c (λ b ps.
                                  uno-IsBueno ps _ pcb c (λ d ps. bueno (record {
                                    bloque = (_, refl);
                                    envios = inr (_, refl, refl);
                                  })))))
                                (si (IsBueno pcb c) (eq_ic inst "IO_FS_CREATE") _ _
                                  (uno-IsBueno ps _ pcb c (λ a ps. uno-IsBueno ps _ pcb c (λ b ps.
                                    bueno (record {
                                      bloque = (_, refl);
                                      envios = inr (_, refl, refl);
                                    }))))
                                  (si (IsBueno pcb c) (eq_ic inst "IO_FS_DELETE") _ _
                                    (uno-IsBueno ps _ pcb c (λ a ps. uno-IsBueno ps _ pcb c (λ b ps.
                                      bueno (record {
                                        bloque = (_, refl);
                                        envios = inr (_, refl, refl);
                                      }))))
                                    (si (IsBueno pcb c) (eq_ic inst "IO_FS_TRUNCATE") _ _
                                      (uno-IsBueno ps _ pcb c (λ a ps.
                                        uno-IsBueno ps _ pcb c (λ b ps.
                                          uno-IsBueno ps _ pcb c (λ d ps. bueno (record {
                                            bloque = (_, refl);
                                            envios = inr (_, refl, refl);
                                          })))))
                                      (si (IsBueno pcb c) (eq_ic inst "IO_FS_WRITE") _ _
                                        (uno-IsBueno ps _ pcb c (λ a ps.
                                          uno-IsBueno ps _ pcb c (λ b ps.
                                            uno-IsBueno ps _ pcb c (λ d ps.
                                              uno-IsBueno ps _ pcb c (λ e ps.
                                                uno-IsBueno ps _ pcb c (λ f ps. bueno (record {
                                                  bloque = (_, refl);
                                                  envios = inr (_, refl, refl);
                                                })))))))
                                        (si (IsBueno pcb c) (eq_ic inst "IO_FS_READ") _ _
                                          (uno-IsBueno ps _ pcb c (λ a ps.
                                            uno-IsBueno ps _ pcb c (λ b ps.
                                              uno-IsBueno ps _ pcb c (λ d ps.
                                                uno-IsBueno ps _ pcb c (λ e ps.
                                                  uno-IsBueno ps _ pcb c (λ f ps. bueno (record {
                                                    bloque = (_, refl);
                                                    envios = inr (_, refl, refl);
                                                  })))))))
                                          (si (IsBueno pcb c) (eq_ic inst "EXIT") _ _
                                            (bueno
                                              (record { bloque = (_, refl); envios = inl refl }))
                                            (bueno (record {
                                              bloque = (_, refl);
                                              envios = inl refl;
                                            }))))))))))))))))))))

  tras-Ejecutado :
      (pcb : Pcb) (c : Cpu) (o : Option (Pcb × Cpu))
      → IsBueno pcb c o
      → Ejecutado pcb c (tras_ejecutar eq_ic atoi tlb_max_size algoritmo tam_pagina o)
  tras-Ejecutado pcb c none h = tt
  tras-Ejecutado pcb c (some s) (bueno t) = record {
    bloque = (t.bloque.0, ap (λ (p : Pcb). record p { cpu_registro = s.1.registros }) t.bloque.1);
    envios = t.envios;
  }

  -- Every instruction that the CPU executes changes, of the block of its process, only the program
  -- counter and the registers, which are then those of the CPU, and adds at most one packet to
  -- those that it sends to the kernel or to write to the memory: a write for the process, a system
  -- call whose block is at the next instruction, or the failure of a RESIZE, whose block is as it
  -- was. What it asks of the memory to answer, and a RESIZE itself, are not counted.
  pub ejecutar_instruccion-IsEjecutado :
      (r : Respuestas) (i : InstruccionCpu) (pcb pcb' : Pcb) (c c' : Cpu)
      → ejecutar_instruccion eq_ic atoi tlb_max_size algoritmo tam_pagina r i pcb c
        ≡ some (pcb', c')
      → IsEjecutado pcb c pcb' c'
  unfolding ejecutar_instruccion
  ejecutar_instruccion-IsEjecutado r i pcb pcb' c c' h =
      subst (Ejecutado pcb c) h
        (tras-Ejecutado pcb c _ (elegir-IsBueno r i.instruccion i.parametros pcb c))
