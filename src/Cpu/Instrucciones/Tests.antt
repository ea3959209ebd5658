-- ===== src/Cpu/Instrucciones/Tests.antt =====
-- The cycle on a program of two lines.
use tp_sistemas_operativos_c.Common.{
  ℕ, zero, suc, ◌≡◌, ◌≢◌, refl, str_eq, Bool, true, false, String, List, [], ◌∷◌, Option, none,
  some, if◌then◌else◌, ℤ, pos,
}
use tp_sistemas_operativos_c.Utils.Pcb.{Pcb, registros_cero, exec}
use tp_sistemas_operativos_c.Kernel.Espera.{wait}
use tp_sistemas_operativos_c.Cpu.Instrucciones.{Cpu, Respuestas, al_kernel}
use tp_sistemas_operativos_c.Cpu.Instrucciones.Ciclo.{
  InstruccionCpu, ejecutar_instruccion, ciclo, en_curso,
}
use tp_sistemas_operativos_c.Cpu.Instrucciones.Turno.{ejecutar_instruccion-IsEjecutado}
use tp_sistemas_operativos_c.Cpu.Instrucciones.Efecto.{IsEjecutado}
use tp_sistemas_operativos_c.Cpu.Instrucciones.Vueltas.{ciclo-IsCerrado, ciclo-interrupcion}
use tp_sistemas_operativos_c.Cpu.Instrucciones.Envios.{IsCerrado}

abbrev atoi : String → ℤ
atoi s = if str_eq s "5" then pos 5 else pos 0

abbrev split : String → List String
split s = if str_eq s "SET AX 5" then "SET" ∷ "AX" ∷ "5" ∷ [] else "WAIT" ∷ "RA" ∷ []

abbrev linea : ℕ → ℕ → Option String
linea pid zero = some "SET AX 5"
linea pid (suc zero) = some "WAIT RA"
linea pid (suc (suc n)) = none

abbrev memoria : Respuestas
memoria = record {
  instruccion = linea;
  marco = λ pid n. none;
  dato = λ pid d n. none;
  escrito = λ pid d bs. none;
  resize = λ pid n. none;
  ahora = 0;
  ahora_2 = 0;
}

abbrev proceso : Pcb
proceso = record {
  pid = 1;
  quantum = pos 2000;
  program_counter = 0;
  cpu_registro = registros_cero;
  estado = exec;
}

abbrev cpu : Cpu
cpu = record {
  registros = registros_cero;
  tlb = record { entradas = []; lru_peticiones = none };
  enviados = [];
}

-- The interruption comes in the second turn.
abbrev interrupcion : ℕ → Bool
interrupcion zero = false
interrupcion (suc n) = true

abbrev espera_ra : InstruccionCpu
espera_ra = record { instruccion = "WAIT"; parametros = "RA" ∷ [] }

abbrev tras_wait : Pcb
tras_wait = record proceso { program_counter = 1 }

esperado :
    ejecutar_instruccion str_eq atoi 4 "FIFO" 32 memoria espera_ra proceso cpu
    ≡ some (tras_wait, record cpu { enviados = al_kernel (wait tras_wait "RA") ∷ [] })
unfolding ejecutar_instruccion
esperado = refl

ejecutar_instruccion_example :
    IsEjecutado proceso cpu tras_wait
      (record cpu { enviados = al_kernel (wait tras_wait "RA") ∷ [] })
ejecutar_instruccion_example =
    ejecutar_instruccion-IsEjecutado str_eq atoi 4 "FIFO" 32 memoria espera_ra proceso tras_wait cpu
      _ esperado

ciclo-IsCerrado_example :
    IsCerrado proceso cpu
      (ciclo str_eq atoi split 4 "FIFO" 32 3 (λ n. memoria) interrupcion 0 proceso cpu)
ciclo-IsCerrado_example =
    ciclo-IsCerrado str_eq atoi split 4 "FIFO" 32 3 (λ n. memoria) interrupcion 0 proceso cpu

ciclo-interrupcion_example :
    ciclo str_eq atoi split 4 "FIFO" 32 2 (λ n. memoria) interrupcion 0 proceso cpu ≢ en_curso
ciclo-interrupcion_example =
    ciclo-interrupcion str_eq atoi split 4 "FIFO" 32 1 (λ n. memoria) interrupcion 0 proceso cpu
      refl
