-- ===== src/Cpu/Tests.antt =====
-- The CPU on small states.
use tp_sistemas_operativos_c.Common.{
  ℕ, ◌+◌, ◌*◌, ◌%◌, ◌<◌, ◌^◌, ◌≡◌, refl, str_eq, List, [], ◌∷◌, ◌++◌, Option, none, some, arith, ℤ,
  pos, negsuc, length, sub_ℕ, ◌≤◌,
}
use tp_sistemas_operativos_c.Utils.Pcb.{Pcb, Registros, IsValid, registros_cero, exec}
use tp_sistemas_operativos_c.Cpu.Tlb.{TlbEntry, Tlb}
use tp_sistemas_operativos_c.Cpu.Mmu.{
  buscar_en_tabla_de_paginas, obtener_marco, direccion_fisica, numero_pagina,
  calcular_direccion_fisica,
}
use tp_sistemas_operativos_c.Cpu.Mmu.Coherencia.{
  IsCoherente, calcular_direccion_fisica-IsCoherente, length-calcular_direccion_fisica,
}
use tp_sistemas_operativos_c.Cpu.Mmu.Reciente.{obtener_marco-reciente}
use tp_sistemas_operativos_c.Cpu.Mmu.Direccion.{direccion_fisica-cota}
use tp_sistemas_operativos_c.Cpu.Registros.{instruccion_sum, instruccion_sub}
use tp_sistemas_operativos_c.Cpu.Registros.Nombres.{ax, ebx, crudo, ancho}
use tp_sistemas_operativos_c.Cpu.Registros.Aritmetica.{instruccion_sum-crudo, instruccion_sub-crudo}

-- The page n of every process is in the frame n + 7.
abbrev tabla : ℕ → ℤ → Option ℤ
tabla pid (pos n) = some (pos (n + 7))
tabla pid (negsuc n) = none

abbrev dos_paginas : Tlb
dos_paginas = record {
  entradas =
      record { pid = 1; pagina = pos 0; marco = pos 7 }
      ∷ record { pid = 1; pagina = pos 1; marco = pos 8 }
      ∷ [];
  lru_peticiones = none;
}

dos_paginas-IsCoherente : IsCoherente tabla dos_paginas.entradas
unfolding buscar_en_tabla_de_paginas
dos_paginas-IsCoherente = (refl, (refl, tt))

calcular_direccion_fisica-IsCoherente_example :
    let s = calcular_direccion_fisica str_eq 2 "LRU" tabla 32 0 1 (pos 70) dos_paginas in
    (s.0
      ≡ direccion_fisica 32
          (buscar_en_tabla_de_paginas tabla 1 (numero_pagina 32 (pos 70)))
          (pos 70))
    × IsCoherente tabla s.1.entradas
calcular_direccion_fisica-IsCoherente_example =
    calcular_direccion_fisica-IsCoherente str_eq 2 "LRU" tabla 32 0 1 (pos 70) dos_paginas
      dos_paginas-IsCoherente

obtener_marco-reciente_example :
    let s = obtener_marco str_eq 2 "LRU" tabla 0 1 (pos 0) dos_paginas in
    (viejas : List TlbEntry) × (s.1.entradas
      ≡ viejas ++ (record { pid = 1; pagina = pos 0; marco = s.0 } ∷ []))
obtener_marco-reciente_example =
    obtener_marco-reciente str_eq 2 "LRU" tabla 0 1 (pos 0) dos_paginas refl (ground arith)

length-calcular_direccion_fisica_example :
    length (calcular_direccion_fisica str_eq 2 "LRU" tabla 32 0 1 (pos 70) dos_paginas).1.entradas
    ≤ 2
length-calcular_direccion_fisica_example =
    length-calcular_direccion_fisica str_eq 2 "LRU" tabla 32 0 1 (pos 70) dos_paginas (ground arith)

direccion_fisica-cota_example :
    (direccion_fisica 32 (pos 7) (pos 70) ≡ pos (7 * 32 + 70 % 32))
    × (7 * 32 + 70 % 32 < (7 + 1) * 32)
    × (7 * 32 + 70 % 32 < 16 * 32)
    × (direccion_fisica 32 (pos 7) (negsuc 70) ≡ sub_ℕ (7 * 32) (71 % 32))
direccion_fisica-cota_example = direccion_fisica-cota 32 7 16 70 (ground arith) (ground arith)

abbrev marco_7 : ℕ
marco_7 = 7

abbrev unos : Registros
unos = record registros_cero { ax = 250; ebx = 4294967290 }

unos-IsValid : IsValid unos
unos-IsValid = record {
  pc_32 = ground arith;
  ax_8 = ground arith;
  bx_8 = ground arith;
  cx_8 = ground arith;
  dx_8 = ground arith;
  eax_32 = ground arith;
  ebx_32 = ground arith;
  ecx_32 = ground arith;
  edx_32 = ground arith;
  si_32 = ground arith;
  di_32 = ground arith;
}

abbrev proceso : Pcb
proceso = record {
  pid = 1;
  quantum = pos 2000;
  program_counter = 4294967295;
  cpu_registro = unos;
  estado = exec;
}

instruccion_sum-crudo_example :
    (crudo ax (instruccion_sum str_eq proceso "AX" "EBX" unos).1
      ≡ (crudo ax unos + crudo ebx unos) % ancho ax)
    × ((instruccion_sum str_eq proceso "AX" "EBX" unos).0.program_counter
        ≡ (proceso.program_counter + 1) % 2 ^ 32)
instruccion_sum-crudo_example =
    instruccion_sum-crudo str_eq "AX" "EBX" ax ebx proceso unos refl refl (ground arith)
      (ground arith) unos-IsValid

instruccion_sub-crudo_example :
    (crudo ax (instruccion_sub str_eq proceso "AX" "EBX" unos).1 + crudo ebx unos) % ancho ax
    ≡ crudo ax unos
instruccion_sub-crudo_example =
    instruccion_sub-crudo str_eq "AX" "EBX" ax ebx proceso unos refl refl (ground arith)
      (ground arith) unos-IsValid
