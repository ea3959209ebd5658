-- ===== src/Cpu/Instrucciones.antt =====
-- cpu/src/cpu-utils: instrucciones.c, the instructions that ask the memory or the kernel, with the
-- requests of conexiones.c. What is sent is kept in `enviados`; the confirmation of a system call, which is only waited for, is not in the state.
pub mod Ciclo
pub mod Efecto
pub mod Turno
pub mod Envios
pub mod Vueltas
mod Tests
use tp_sistemas_operativos_c.Common.{
  ℕ, suc, ◌+◌, ◌%◌, ◌^◌, Bool, true, false, String, List, [], ◌∷◌, ◌++◌, Option, none, some,
  if◌then◌else◌, ℤ, pos, negsuc, eqb_ℤ, ltb_ℤ, to_unsigned,
}
use tp_sistemas_operativos_c.Utils.Pcb.{Pcb, Registros}
use tp_sistemas_operativos_c.Kernel.Espera.{PaqueteCpu, wait, signal, error_out_of_memory}
use tp_sistemas_operativos_c.Kernel.Interfaces.Llamadas.{
  PaqueteCpuIo, cpu_stdin_read, cpu_stdout_write, cpu_fs_create, cpu_fs_delete, cpu_fs_truncate,
  cpu_fs_write, cpu_fs_read, cpu_gen_sleep,
}
use tp_sistemas_operativos_c.Cpu.Tlb.{Tlb}
use tp_sistemas_operativos_c.Cpu.Mmu.{calcular_direccion_fisica}
use tp_sistemas_operativos_c.Cpu.Registros.{
  pc_mas_1, uint_32, valor_del_registro, instruccion_set, instruccion_sum, instruccion_sub,
  instruccion_jnz,
}

-- What the CPU sends: to the kernel, or a write to the memory.
pub data EnvioCpu : Type 0 where
  al_kernel : PaqueteCpu → EnvioCpu
  al_kernel_io : PaqueteCpuIo → EnvioCpu
  escribir_memoria : ℕ → ℤ → List ℕ → EnvioCpu

pub record Cpu : Type 0 where
  pub registros : Registros
  pub tlb : Tlb
  pub enviados : List EnvioCpu

-- What the memory answers during an instruction, and the times of its two translations.
-- `dato` is the pointer to the payload as an `int`, with its bytes; `none` is NULL.
-- `resize` is the result in a packet RESIZE_SUCCESS; `none` is any other packet, or none.
pub record Respuestas : Type 0 where
  pub instruccion : ℕ → ℕ → Option String
  pub marco : ℕ → ℤ → Option ℤ
  pub dato : ℕ → ℤ → ℤ → Option (ℤ × List ℕ)
  pub escrito : ℕ → ℤ → List ℕ → Option ℤ
  pub resize : ℕ → ℤ → Option ℤ
  pub ahora : ℕ
  pub ahora_2 : ℕ

abbrev pub enviar : EnvioCpu → Cpu → Cpu
enviar e c = record c { enviados = c.enviados ++ (e ∷ []) }

-- The parameters that an instruction reads; one that is missing is a null pointer.
abbrev pub uno : {A : Type 0} → List String → (String → List String → Option A) → Option A
uno [] f = none
uno (a ∷ ps) f = f a ps

-- The system calls of conexiones.c. `oper` is the packet: IO_FS_CREATE or IO_FS_DELETE, IO_FS_WRITE or
-- IO_FS_READ; for `enviar_pcb_kernel`, a packet that holds the block.
abbrev pub enviar_pcb_kernel : (Pcb → PaqueteCpu) → Pcb → Cpu → Cpu
enviar_pcb_kernel oper pcb = enviar (al_kernel (oper pcb))

abbrev pub solicitar_wait : String → Pcb → Cpu → Cpu
solicitar_wait recurso pcb = enviar (al_kernel (wait pcb recurso))

abbrev pub solicitar_signal : String → Pcb → Cpu → Cpu
solicitar_signal recurso pcb = enviar (al_kernel (signal pcb recurso))

abbrev pub solicitar_io_stdin : ℤ → Pcb → String → ℤ → Cpu → Cpu
solicitar_io_stdin tam pcb interfaz dir_fisica =
    enviar (al_kernel_io (cpu_stdin_read pcb interfaz tam dir_fisica))

abbrev pub solicitar_io_stdout : String → ℤ → ℤ → Pcb → Cpu → Cpu
solicitar_io_stdout interfaz direccion_fisica tam pcb =
    enviar (al_kernel_io (cpu_stdout_write pcb interfaz direccion_fisica tam))

abbrev pub solicitar_fs_create_or_delete :
    String → String → (Pcb → String → String → PaqueteCpuIo) → Pcb → Cpu → Cpu
solicitar_fs_create_or_delete interfaz archivo oper pcb =
    enviar (al_kernel_io (oper pcb interfaz archivo))

abbrev pub solicitar_fs_truncate : String → String → ℤ → Pcb → Cpu → Cpu
solicitar_fs_truncate interfaz archivo tam pcb =
    enviar (al_kernel_io (cpu_fs_truncate pcb interfaz archivo tam))

abbrev pub solicitar_fs_write_or_read :
    String
    → String
    → ℤ
    → ℤ
    → ℤ
    → (Pcb → String → String → ℤ → ℤ → ℤ → PaqueteCpuIo)
    → Pcb
    → Cpu
    → Cpu
solicitar_fs_write_or_read interfaz archivo direccion tam puntero oper pcb =
    enviar (al_kernel_io (oper pcb interfaz archivo tam direccion puntero))

-- NULL is the number 0.
abbrev pub puntero_de : Option (ℤ × List ℕ) → ℤ
puntero_de none = pos 0
puntero_de (some d) = d.0

-- `solicitar_resize_memoria`: ERROR_OUT_OF_MEMORY is the 30 of its enumeration.
unfoldable pub solicitar_resize_memoria : Option ℤ → ℤ
solicitar_resize_memoria none = negsuc 0
solicitar_resize_memoria (some resultado) = if eqb_ℤ resultado (pos 30) then negsuc 0 else resultado

unfoldable pub instruccion_resize : Respuestas → ℤ → Pcb → Cpu → Pcb × Cpu
unfolding solicitar_resize_memoria
instruccion_resize r tam pcb c =
    if eqb_ℤ (solicitar_resize_memoria (r.resize pcb.pid tam)) (negsuc 0)
    then (pcb, enviar_pcb_kernel error_out_of_memory pcb c)
    else (pc_mas_1 pcb, c)

-- `enviar_dato_memoria`: no packet is -1.
abbrev pub enviar_dato_memoria : Option ℤ → ℤ
enviar_dato_memoria none = negsuc 0
enviar_dato_memoria (some resultado) = resultado

-- A copy to or from NULL, or of a negative size, is no result.
unfoldable pub copiar_dato :
    Respuestas → ℤ → ℤ → Option (ℤ × List ℕ) → Pcb → Cpu → Option (Pcb × Cpu)
copiar_dato r tam dir none pcb c = if eqb_ℤ tam (pos 0) then some (pcb, c) else none
copiar_dato r tam dir (some d) pcb c =
    let c' = enviar (escribir_memoria pcb.pid dir d.1) c in
    if ltb_ℤ tam (pos 0)
    then none
    else some (
      if eqb_ℤ (enviar_dato_memoria (r.escrito pcb.pid dir d.1)) (negsuc 0)
          then pcb
          else pc_mas_1 pcb,
      c',
    )

unfoldable pub instruccion_io_gen_sleep : String → ℤ → Pcb → Cpu → Pcb × Cpu
instruccion_io_gen_sleep interfaz tiempo pcb c =
    (pc_mas_1 pcb, enviar (al_kernel_io (cpu_gen_sleep (pc_mas_1 pcb) interfaz tiempo)) c)

unfoldable pub instruccion_wait : String → Pcb → Cpu → Pcb × Cpu
instruccion_wait recurso pcb c = (pc_mas_1 pcb, solicitar_wait recurso (pc_mas_1 pcb) c)

unfoldable pub instruccion_signal : String → Pcb → Cpu → Pcb × Cpu
instruccion_signal recurso pcb c = (pc_mas_1 pcb, solicitar_signal recurso (pc_mas_1 pcb) c)

unfoldable pub instruccion_io_fs_create : String → String → Pcb → Cpu → Pcb × Cpu
instruccion_io_fs_create interfaz archivo pcb c =
    (pc_mas_1 pcb, solicitar_fs_create_or_delete interfaz archivo cpu_fs_create (pc_mas_1 pcb) c)

unfoldable pub instruccion_io_fs_delete : String → String → Pcb → Cpu → Pcb × Cpu
instruccion_io_fs_delete interfaz archivo pcb c =
    (pc_mas_1 pcb, solicitar_fs_create_or_delete interfaz archivo cpu_fs_delete (pc_mas_1 pcb) c)

-- EXIT asks the kernel for nothing.
unfoldable pub instruccion_exit : Pcb → Cpu → Pcb × Cpu
instruccion_exit pcb c = (pc_mas_1 pcb, c)

module _ (eq_ic : String → String → Bool) (tlb_max_size : ℕ) (algoritmo : String)
    (tam_pagina : ℕ) where
  abbrev pub traducir : Respuestas → ℕ → ℕ → ℤ → Cpu → ℤ × Cpu
  traducir r ahora pid dir c =
      let t =
        calcular_direccion_fisica eq_ic tlb_max_size algoritmo r.marco tam_pagina ahora pid dir
          c.tlb in
      (t.0, record c { tlb = t.1 })

  abbrev pub valor : String → Cpu → ℤ
  valor reg c = valor_del_registro eq_ic reg c.registros

  unfoldable pub instruccion_mov_in : Respuestas → String → String → Pcb → Cpu → Pcb × Cpu
  unfolding valor_del_registro instruccion_set calcular_direccion_fisica
  instruccion_mov_in r reg_dato reg_dire pcb c =
      let t = traducir r r.ahora pcb.pid (valor reg_dire c) c in
      let dato = puntero_de (r.dato pcb.pid t.0 (pos 4)) in
      (pc_mas_1 pcb, record (t.1) { registros = instruccion_set eq_ic reg_dato dato c.registros })

  -- One byte of the value is sent.
  unfoldable pub instruccion_mov_out : Respuestas → String → String → Pcb → Cpu → Pcb × Cpu
  unfolding valor_del_registro calcular_direccion_fisica
  instruccion_mov_out r reg_dire reg_dato pcb c =
      let t = traducir r r.ahora pcb.pid (valor reg_dire c) c in
      if eqb_ℤ t.0 (negsuc 0) then (pcb, t.1) else (
        pc_mas_1 pcb,
        enviar (escribir_memoria pcb.pid t.0 (to_unsigned 256 (valor reg_dato c) ∷ [])) t.1,
      )

  unfoldable pub instruccion_copy_string : Respuestas → ℤ → Pcb → Cpu → Option (Pcb × Cpu)
  unfolding valor_del_registro calcular_direccion_fisica copiar_dato
  instruccion_copy_string r tam pcb c =
      let si = traducir r r.ahora pcb.pid (valor "SI" c) c in
      let di = traducir r r.ahora_2 pcb.pid (valor "DI" c) si.1 in
      copiar_dato r tam di.0 (r.dato pcb.pid si.0 tam) pcb di.1

  unfoldable pub instruccion_io_stdin_read :
      Respuestas → String → String → String → Pcb → Cpu → Pcb × Cpu
  unfolding valor_del_registro calcular_direccion_fisica
  instruccion_io_stdin_read r interfaz reg_dire reg_tam pcb c =
      let t = traducir r r.ahora pcb.pid (valor reg_dire c) c in
      (pc_mas_1 pcb, solicitar_io_stdin (valor reg_tam c) (pc_mas_1 pcb) interfaz t.0 t.1)

  unfoldable pub instruccion_io_stdout_write :
      Respuestas → String → String → String → Pcb → Cpu → Pcb × Cpu
  unfolding valor_del_registro calcular_direccion_fisica
  instruccion_io_stdout_write r interfaz reg_dire reg_tam pcb c =
      let t = traducir r r.ahora pcb.pid (valor reg_dire c) c in
      (pc_mas_1 pcb, solicitar_io_stdout interfaz t.0 (valor reg_tam c) (pc_mas_1 pcb) t.1)

  unfoldable pub instruccion_io_fs_truncate : String → String → String → Pcb → Cpu → Pcb × Cpu
  unfolding valor_del_registro
  instruccion_io_fs_truncate interfaz archivo reg_tam pcb c =
      (pc_mas_1 pcb, solicitar_fs_truncate interfaz archivo (valor reg_tam c) (pc_mas_1 pcb) c)

  unfoldable pub instruccion_io_fs_write :
      Respuestas → String → String → String → String → String → Pcb → Cpu → Pcb × Cpu
  unfolding valor_del_registro calcular_direccion_fisica
  instruccion_io_fs_write r interfaz archivo reg_dire reg_tam reg_puntero pcb c =
      let t = traducir r r.ahora pcb.pid (valor reg_dire c) c in
      (
        pc_mas_1 pcb,
        solicitar_fs_write_or_read interfaz archivo t.0 (valor reg_tam c) (valor reg_puntero c)
            cpu_fs_write (pc_mas_1 pcb) t.1,
      )

  unfoldable pub instruccion_io_fs_read :
      Respuestas → String → String → String → String → String → Pcb → Cpu → Pcb × Cpu
  unfolding valor_del_registro calcular_direccion_fisica
  instruccion_io_fs_read r interfaz archivo reg_dire reg_tam reg_puntero pcb c =
      let t = traducir r r.ahora pcb.pid (valor reg_dire c) c in
      (
        pc_mas_1 pcb,
        solicitar_fs_write_or_read interfaz archivo t.0 (valor reg_tam c) (valor reg_puntero c)
            cpu_fs_read (pc_mas_1 pcb) t.1,
      )
